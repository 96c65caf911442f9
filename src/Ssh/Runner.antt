-- ===== src/Ssh/Runner.antt =====
-- internal/ssh/manager.go: `sshCommandRunner.Run`, over the sessions of golang.org/x/crypto/ssh.
use Prim.Native.String
use cilium_dhcp_wanip_operat.Base.{
  ℕ, String, Option, none, some, List, Text, lit, fmt, Result, ok, err, is_empty, if◌then◌else◌,
}
use cilium_dhcp_wanip_operat.Base.Action.{Action, fails, ◌>>=◌, ◌>>◌}

-- What the select sees first: the end of the command, with its output, or the end of the context.
pub data Ending : Type 0 where
  finished : Result (Unit {0}) → List ℕ → String → Ending
  context_done : Text → Ending

-- `S` is the type of sessions. `wait` is the receive from `done` after the context has ended.
pub record Sessions (W S : Type 0) : Type 0 where
  pub new_session : ℕ → Action W S
  pub start : S → List ℕ → Action W (Unit {0})
  pub select : S → W → Ending × W
  pub signal_kill : S → Action W (Unit {0})
  pub close_session : S → Action W (Unit {0})
  pub wait : S → Action W (Unit {0})

-- `fmt.Errorf("%w: %s", err, msg)` with what was written to stderr, if anything was.
abbrev pub with_stderr : Text → String → Text
with_stderr e stderr = if is_empty stderr then e else fmt (String.◌++◌ "%w: " stderr) e

module _ {W S : Type 0} (lib : Sessions W S) where
  unfoldable pub by_ending : S → Ending × W → Result (List ℕ) × W
  by_ending session (finished (ok u) stdout stderr, w) = (ok stdout, w)
  by_ending session (finished (err e) stdout stderr, w) = (err (with_stderr e stderr), w)
  by_ending session (context_done e, w) =
      let (_, w₁) = lib.signal_kill session w in
      let (_, w₂) = lib.close_session session w₁ in let (_, w₃) = lib.wait session w₂ in (err e, w₃)

  unfoldable pub run_session : List ℕ → S → Action W (List ℕ)
  unfolding by_ending
  run_session command session = do
    lib.start session command
    (λ w. by_ending session (lib.select session w))

  -- The session is closed at the end, once more where the context has ended.
  unfoldable pub closing_session : S → Action W (List ℕ) → Action W (List ℕ)
  closing_session session m w =
      let (r, w₁) = m w in let (_, w₂) = lib.close_session session w₁ in (r, w₂)

  -- `none` is a client that is nil.
  unfoldable pub run : Option ℕ → List ℕ → Action W (List ℕ)
  unfolding run_session closing_session
  run none command = fails (lit "ssh client is nil")
  run (some client) command = do
    session ← lib.new_session client
    closing_session session (run_session command session)
