-- ===== src/Setconf/Files.antt =====
-- What setconf, addconf and syncconf make of a file, and what they hand to `ipc_set_device`.
use router1_app.Prelude.{ℕ, Bool, List, [], ◌∷◌, Bytes, Ensures, Ensures-bind}
use router1_app.Config.Host.{Host, IsHost}
use router1_app.Config.Line.{Ctx}
use router1_app.Config.Line.Peers.{IsCtx}
use router1_app.Config.Read.{config_read_line, config_read_init}
use router1_app.Config.Read.Lines.{config_read_line-Ensures, config_read_init-IsCtx}
use router1_app.Config.Read.Laws.{IsFinished, config_read_finish-Ensures}
use router1_app.Setconf.Main.{read_lines, read_file}

read_lines-Ensures :
    (h : Host) (fuel : ℕ) (ctx : Ctx) (lines : List Bytes)
    → IsHost h
    → IsCtx ctx
    → Ensures IsCtx (read_lines h fuel ctx lines)
unfolding read_lines
read_lines-Ensures h fuel ctx [] w good = good
read_lines-Ensures h fuel ctx (line ∷ lines) w good =
    Ensures-bind IsCtx IsCtx (config_read_line h fuel ctx line) _
      (config_read_line-Ensures h fuel ctx line w good)
      (λ ctx' good'. read_lines-Ensures h fuel ctx' lines w good')

-- Whatever the lines of a file are, its reading goes through no null pointer, and a device that it
-- gives is well-formed, with a public key set for each peer. The
-- host is as its manuals say.
pub read_file-Ensures :
    (h : Host) (fuel : ℕ) (append : Bool) (lines : List Bytes)
    → IsHost h
    → Ensures IsFinished (read_file h fuel append lines)
unfolding read_file
read_file-Ensures h fuel append lines w =
    Ensures-bind IsCtx IsFinished (read_lines h fuel (config_read_init append) lines) _
      (read_lines-Ensures h fuel (config_read_init append) lines w (config_read_init-IsCtx append))
      (λ ctx good. config_read_finish-Ensures ctx good)
