-- ===== src/WgQuick/Interface/Removal.antt =====
-- wg-quick/android.c: what del_if does behind the deletion of the interface.
use router1_app.Prelude.{ℕ, none, List, [], ◌∷◌, Bytes, codes}
use router1_app.WgQuick.Script.{World, Event, ran, asked, concat}
use router1_app.WgQuick.Script.Only.{
  Only, Only-pure, Only-ending, Only-option, Only-bind, cmd-Only, popen-Only, each_line-Only,
  cndc-Only,
}
use router1_app.WgQuick.Interface.{delete_rules, delete_rule, find_netid}

-- The questions for rules, and the commands that take a rule of a firewall or a network away.
pub data IsRemoval : Event → Type 0 where
  asks_rules : IsRemoval (asked (codes "iptables-save"))
  asks_rules6 : IsRemoval (asked (codes "ip6tables-save"))
  asks_routes : IsRemoval (asked (codes "ip rule show"))
  deletes : (rule : Bytes) → IsRemoval (ran (concat (codes "iptables" ∷ codes " -D " ∷ rule ∷ [])))
  deletes6 :
      (rule : Bytes) → IsRemoval (ran (concat (codes "ip6tables" ∷ codes " -D " ∷ rule ∷ [])))
  destroys :
      (netid : Bytes)
      → IsRemoval (asked (concat (codes "ndc " ∷ codes "network destroy " ∷ netid ∷ [])))

delete_rule-Only :
    (w : World) (iface command : Bytes) (u : Unit {0}) (rule : Bytes)
    → ((found : Bytes) → IsRemoval (ran (concat (command ∷ codes " -D " ∷ found ∷ []))))
    → Only IsRemoval (delete_rule w iface command u rule)
unfolding delete_rule
delete_rule-Only w iface command u rule h = search (h, Only-pure, Only-option, cmd-Only)

find_netid-Only :
    (w : World) (iface : Bytes) (rules : List Bytes) (e : ℕ)
    → Only IsRemoval (find_netid w iface rules e)
unfolding find_netid
find_netid-Only w iface [] e = Only-ending IsRemoval e none
find_netid-Only w iface (rule ∷ rules) e =
    search (Only-pure, Only-option, find_netid-Only w iface rules e)

pub delete_rules-Only : (w : World) (iface : Bytes) → Only IsRemoval (delete_rules w iface)
unfolding delete_rules
delete_rules-Only w iface =
    search
      (
        asks_rules, asks_rules6, asks_routes, deletes, deletes6, destroys, Only-pure, Only-option,
        Only-bind, popen-Only, each_line-Only, cndc-Only, delete_rule-Only, find_netid-Only,
      )
      depth 14
