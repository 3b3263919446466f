-- ===== src/WgQuick/Cleanup.antt =====
-- wg-quick/android.c: what a failure of `up` leaves behind.
use mathlib.Core.Path.{subst}
use router1_app.Prelude.{
  ℕ, ◌≡◌, refl, ap, ◌∙◌, inl, inr, true, none, List, [], ◌∷◌, ◌++◌, Bytes, Bool-cases, truthy, ◌==◌,
  sym, ◌≢◌, ◌⊎◌, some, Option, All,
}
use router1_app.WgQuick.Script.{
  cmd_ret, World, State, Result, Event, Piped, ran, asked, returned, exits, replaced, fault, hang,
  refused, output, ending, onward, ◌>>=◌, ◌>>◌, pure, exit, gets, modify, whole_output, first_line,
  cmd, cmd_ret, popen, status, on_option,
}
use router1_app.WgQuick.Steps.{bring_up-Keeps}
use router1_app.WgQuick.Interface.Removal.{IsRemoval, delete_rules-Only}
use router1_app.WgQuick.Interface.{del_if, link_del}
use router1_app.WgQuick.{Options}
use router1_app.WgQuick.Main.{
  link_show, cmd_up, begin_up, bring_up, link_show, cmd_up_cleanup, at_exit, after_exit,
}
use router1_app.WgQuick.Script.Keeps.{Follows, cmd_ret-Keeps}

-- The event stands in the list, with nothing but removals behind it, and before it what was done to
-- the base. The newest event comes first.
pub record Undone (e : Event) (base done : List Event) : Type 0 where
  pub later : List Event
  pub earlier : List Event
  pub split : done ≡ later ++ (e ∷ (earlier ++ base))
  pub removals : All IsRemoval later

ending-state : {A : Type 0} (e : ℕ) (a : A) (s : State) → (ending e a s).1 ≡ s
unfolding pure exit
ending-state e a s = elim (Bool-cases (e == 0)) [ inl h ↦ rw h refl | inr h ↦ rw h refl ]

first_line-state : (piped : List Bytes × ℕ) (s : State) → (first_line piped s).1 ≡ s
unfolding first_line pure
first_line-state ([], e) s = ending-state e none s
first_line-state (first ∷ more, e) s = refl

first_line-whole_output :
    (p : Piped) (s : State) → (onward (whole_output p s) (λ piped. first_line piped)).1 ≡ s
unfolding whole_output pure exit
first_line-whole_output (refused e) s = refl
first_line-whole_output (output lines e) s = first_line-state (lines, e) s

cmd_ret-done :
    (w : World) (line : Bytes) (s : State) → (cmd_ret w line s).1.done ≡ asked line ∷ s.done
unfolding cmd_ret popen ◌>>=◌ gets modify
cmd_ret-done w line s =
    ap (λ (t : State). t.done)
      (first_line-whole_output (w.pipe s.done line) (record s { done = asked line ∷ s.done }))

-- While the program exits, no failure of a command ends it.
cmd-exiting :
    (w : World) (line : Bytes) (s : State)
    → s.is_exiting ≡ true
    → cmd w line s ≡ (returned tt, record s { done = ran line ∷ s.done })
unfolding cmd ◌>>=◌ gets modify pure exit
cmd-exiting w line s h = rw h (elim (Bool-cases (truthy (status (w.run s.done line)))) [
  | inl e ↦ rw e refl
  | inr e ↦ rw e refl
])

del_if-Undone :
    (w : World) (iface : Bytes) (base : List Event) (s : State)
    → s.is_exiting ≡ true
    → (earlier : List Event) → s.done ≡ earlier ++ base
    → Undone (ran (link_del iface)) base (del_if w iface s).1.done
unfolding del_if ◌>>=◌
del_if-Undone w iface base s h earlier e =
    let t : State = record s { done = ran (link_del iface) ∷ s.done } in
    let f = (delete_rules-Only w iface).at t in
    rw (cmd-exiting w (link_del iface) s h) (record {
      later = f.news;
      earlier = earlier;
      split = f.done ∙ ap (λ (l : List Event). f.news ++ (ran (link_del iface) ∷ l)) e;
      removals = f.only;
    })

after_exit-done : (n : ℕ) (x : Result Unit × State) → (after_exit n x).1.done ≡ x.1.done
after_exit-done n (returned _, s) = refl
after_exit-done n (exits m, s) = refl
after_exit-done n (replaced, s) = refl
after_exit-done n (fault, s) = refl
after_exit-done n (hang, s) = refl

at_exit-idle :
    (w : World) (n : ℕ) (s : State)
    → s.cleanup_iface ≡ none
    → ((at_exit w (exits n, s)).0 ≡ returned n) × ((at_exit w (exits n, s)).1.done ≡ s.done)
unfolding at_exit cmd_up_cleanup ◌>>=◌ modify gets on_option pure
at_exit-idle w n s h = rw h (refl, refl)

cmd_up_cleanup-del_if :
    (w : World) (iface : Bytes) (s : State)
    → s.cleanup_iface ≡ some iface
    → cmd_up_cleanup w s ≡ del_if w iface (record s { is_exiting = true })
unfolding cmd_up_cleanup ◌>>=◌ modify gets on_option
cmd_up_cleanup-del_if w iface s h =
    ap
      (λ (o : Option Bytes).
        on_option o (pure tt) (λ name. del_if w name) (record s { is_exiting = true }))
      h

at_exit-Undone :
    (w : World) (iface : Bytes) (base : List Event) (n : ℕ) (s : State)
    → s.cleanup_iface ≡ some iface
    → (earlier : List Event) → s.done ≡ earlier ++ base
    → Undone (ran (link_del iface)) base (at_exit w (exits n, s)).1.done
unfolding at_exit
at_exit-Undone w iface base n s h earlier e =
    let t : State = record s { is_exiting = true } in
    let done : (after_exit n (cmd_up_cleanup w s)).1.done ≡ (del_if w iface t).1.done =
      after_exit-done n (cmd_up_cleanup w s)
      ∙ ap (λ (x : Result Unit × State). x.1.done) (cmd_up_cleanup-del_if w iface s h) in
    subst (Undone (ran (link_del iface)) base) (sym done)
      (del_if-Undone w iface base t refl earlier e)

-- What a run of `up` that ends with a status may have done, from its question for the interface on.
abbrev pub Ends : Bytes → List Event → Result ℕ × State → Type 0
Ends iface base y =
    (n : ℕ)
    → y.0 ≡ returned n
    → n ≢ 0
    → (y.1.done ≡ base) ⊎ Undone (ran (link_del iface)) base y.1.done

-- The state in which the steps of `up` start.
abbrev named_state : Bytes → State → State
named_state iface s = record s { cleanup_iface = some iface }

brought_up-Ends :
    (w : World) (iface : Bytes) (s : State) (x : Result Unit × State)
    → Follows (named_state iface s) x.1
    → Ends iface s.done
        (at_exit w (onward x (λ _. modify (λ t. record t { cleanup_iface = none }) >> exit 0)))
unfolding modify exit at_exit ◌>>=◌
brought_up-Ends w iface s (returned u, t) f n e h =
    let zero_status = (at_exit-idle w 0 (record t { cleanup_iface = none }) refl).0 in
    let is_zero : n ≡ 0 = cc in absurd (h is_zero)
brought_up-Ends w iface s (exits m, t) f n e h =
    inr (at_exit-Undone w iface s.done m t f.cleanup_iface f.news f.done)
brought_up-Ends w iface s (replaced, t) f n e h = cc
brought_up-Ends w iface s (fault, t) f n e h = cc
brought_up-Ends w iface s (hang, t) f n e h = cc

idle-Ends :
    (w : World) (iface : Bytes) (m : ℕ) (s : State)
    → s.cleanup_iface ≡ none
    → Ends iface s.done (at_exit w (exits m, s))
idle-Ends w iface m s none_yet n e h = inl (at_exit-idle w m s none_yet).1

begun-Ends :
    (w : World) (fuel : ℕ) (iface : Bytes) (o : Options) (x : Result (Option Bytes) × State)
    → x.1.cleanup_iface ≡ none
    → Ends iface x.1.done (at_exit w (onward x (λ present. begin_up w fuel iface o present)))
unfolding begin_up ◌>>=◌ exit at_exit modify
begun-Ends w fuel iface o (returned none, s) h n e k =
    brought_up-Ends w iface s (bring_up w fuel iface o (named_state iface s))
      ((bring_up-Keeps w fuel iface o).at (named_state iface s)) n e k
begun-Ends w fuel iface o (returned (some line), s) h n e k = idle-Ends w iface 17 s h n e k
begun-Ends w fuel iface o (exits m, s) h n e k = idle-Ends w iface m s h n e k
begun-Ends w fuel iface o (replaced, s) h n e k = cc
begun-Ends w fuel iface o (fault, s) h n e k = cc
begun-Ends w fuel iface o (hang, s) h n e k = cc

-- A run of `wg-quick up` that ends with a status other than 0 has either done nothing but ask whether
-- the interface exists, or has run the command that deletes the interface, and behind it nothing but
-- questions for rules and commands that take rules of a firewall or a network away.
pub cmd_up-Undone :
    (w : World) (fuel : ℕ) (iface : Bytes) (o : Options) (s : State)
    → s.cleanup_iface ≡ none
    → Ends iface (asked (link_show iface) ∷ s.done) (at_exit w (cmd_up w fuel iface o s))
unfolding cmd_up ◌>>=◌
cmd_up-Undone w fuel iface o s h =
    let x = cmd_ret w (link_show iface) s in
    let f = (cmd_ret-Keeps w (link_show iface)).at s in
    subst (λ (base : List Event). Ends iface base (at_exit w (cmd_up w fuel iface o s)))
      (cmd_ret-done w (link_show iface) s) (begun-Ends w fuel iface o x (f.cleanup_iface ∙ h))
