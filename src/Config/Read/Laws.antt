-- ===== src/Config/Read/Laws.antt =====
-- What `config_read_finish` lets pass.
use router1_app.Prelude.{◌≡◌, true, List, [], ◌∷◌, arith, Ensures, Ensures-if, All}
use router1_app.Containers.{Peer, Device}
use router1_app.Containers.Flags.{has}
use router1_app.Containers.PeerFlag
use router1_app.Containers.Valid.{IsDevice}
use router1_app.Config.Line.{Ctx}
use router1_app.Config.Line.Peers.{IsCtx}
use router1_app.Config.Read.{all_have_key, config_read_finish}

abbrev pub HasKey : Peer → Type 0
HasKey p = has p.flags PeerFlag.has_public_key ≡ true

-- A well-formed device whose peers all have their public key.
abbrev pub IsFinished : Device → Type 0
IsFinished d = IsDevice d × All HasKey d.peers

all_have_key-All : (peers : List Peer) → all_have_key peers ≡ true → All HasKey peers
unfolding all_have_key
all_have_key-All [] h = tt
all_have_key-All (p ∷ peers) h = ground (arith, all_have_key-All peers)

pub config_read_finish-Ensures :
    (ctx : Ctx) → IsCtx ctx → Ensures IsFinished (config_read_finish ctx)
unfolding config_read_finish
config_read_finish-Ensures ctx good =
    Ensures-if IsFinished (all_have_key ctx.device.peers) _ _
      (λ e. (good.device_valid, all_have_key-All ctx.device.peers e)) (λ e. tt)
