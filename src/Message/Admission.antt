-- ===== src/Message/Admission.antt =====
-- `parse_message` of 1.0/server/message.c: the requests after which a client is logged in.
use as3chat.Common.{ℕ, ◌≡◌, refl, sym, ap, subst, ◌∙◌, ◌≢◌, inl, inr, Bool, true, false, some}
use as3chat.Common.Tests.{if◌then◌else◌, Bool-cases, Option-cases}
use as3chat.Common.Int.{ℤ, pos, ◌==ℤ◌}
use as3chat.Common.Text.{atoi}
use as3chat.Server.{
  Ptr, null, Client, FdState, is_success, Task, State, Run, ok, fault, out_of_fuel, Cmd, and_then,
  skip,
}
use as3chat.External.{Event}
use as3chat.Messages.{ev_type_auth}
use as3chat.Rooms.Chain.{load-ok}
use as3chat.Message.{parse_message, handle, dispatch, handle_auth, roomid_of, script_returns}
use as3chat.Message.Login.{Env, attr, authenticate, log_in}
use as3chat.Message.Login.Sound.{Credentials, Judged, authenticate-Judged}
use as3chat.Message.Gate.{
  IsRequest, ev_type_of, parse_message-handle, handle-dispatch, handle-silent, dispatch-serve,
  scripted, run_script-scripted,
}

-- If the client at `p` is logged in after the run, it has credentials.
abbrev pub Guarded : Env → Event → Ptr → Run (Unit {0}) → Type 0
Guarded env e p (ok _ t) =
    (d : Client) → t.heap p ≡ some d → is_success d.state ≡ true → Credentials env e
Guarded env e p fault = Unit
Guarded env e p out_of_fuel = Unit

module _ (env : Env) (e : Event) (p : Ptr) where
  Credentials-Guarded : (r : Run (Unit {0})) → Credentials env e → Guarded env e p r
  Credentials-Guarded (ok _ t) given = λ d h on. given
  Credentials-Guarded fault given = tt
  Credentials-Guarded out_of_fuel given = tt

  Off-Guarded :
      (t : State) (c : Client)
      → t.heap p ≡ some c
      → is_success c.state ≡ false
      → Guarded env e p (ok tt t)
  Off-Guarded t c live off = λ d h on. absurd cc

  Judged-Guarded :
      (r : Run Bool) (state : FdState) (next : Cmd (Unit {0}))
      → is_success state ≡ false
      → Judged env e p state r
      → Guarded env e p (and_then r (λ accepted. if accepted then next else skip))
  Judged-Guarded (ok true t) state next off given = Credentials-Guarded (next t) given
  Judged-Guarded (ok false t) state next off i =
      Off-Guarded t i.client i.live (ap is_success i.same ∙ off)
  Judged-Guarded fault state next off j = tt
  Judged-Guarded out_of_fuel state next off j = tt

  handle_auth-Guarded :
      (s : State) (fd : ℕ) (c : Client)
      → p ≢ null
      → s.heap p ≡ some c
      → is_success c.state ≡ false
      → Guarded env e p (handle_auth env p fd e s)
  unfolding handle_auth
  handle_auth-Guarded s fd c n live off =
      rw (load-ok s p c n live, off, handle_auth)
        (Judged-Guarded (authenticate env p fd e s) c.state (log_in env p fd (roomid_of e)) off (
          authenticate-Judged env e p fd c.state s n
            (record { client = c; live = live; same = refl })))

other_than_auth :
    (env : Env) (s : State) (p : Ptr) (fd : ℕ) (e : Event) (n : ℤ) (c : Client)
    → p ≢ null
    → s.heap p ≡ some c
    → is_success c.state ≡ false
    → (n ==ℤ pos ev_type_auth) ≡ false
    → dispatch env p fd e n s ≡ scripted env fd e s
other_than_auth env s p fd e n c ne live off other =
    dispatch-serve env s p fd e n c ne live other ∙ rw off (run_script-scripted env fd e s)

scripted-Guarded :
    (env : Env) (s : State) (p : Ptr) (fd : ℕ) (e : Event) (c : Client)
    → s.heap p ≡ some c
    → is_success c.state ≡ false
    → Guarded env e p (scripted env fd e s)
scripted-Guarded env s p fd e c live off = elim (Bool-cases (script_returns env fd e)) [
  | inl returns ↦ rw returns (Off-Guarded env e p s c live off)
  | inr fails ↦ rw fails tt
]

handle-Guarded :
    (env : Env) (s : State) (p : Ptr) (fd : ℕ) (e : Event) (c : Client)
    → p ≢ null
    → s.heap p ≡ some c
    → is_success c.state ≡ false
    → Guarded env e p (handle env p fd e s)
unfolding dispatch
handle-Guarded env s p fd e c ne live off = elim (Option-cases (attr "type" e)) [
  | inl absent ↦
      subst (Guarded env e p) (sym (handle-silent env s p fd e absent))
        (Off-Guarded env e p s c live off)
  | inr (text, given) ↦
      subst (Guarded env e p)
        (sym (handle-dispatch env s p fd e (atoi text) (rw (given, ev_type_of))))
        (elim (Bool-cases (atoi text ==ℤ pos ev_type_auth)) [
          | inl auth ↦ rw (auth, dispatch) (handle_auth-Guarded env e p s fd c ne live off)
          | inr other ↦
              subst (Guarded env e p)
                (sym (other_than_auth env s p fd e (atoi text) c ne live off other))
                (scripted-Guarded env s p fd e c live off)
        ])
]

-- Nobody comes in without credentials: if a client was not logged in and is so after the task of one
-- request, then that request carried credentials: it asked for a guest's name, or gave the password whose
-- salted digest the database holds, or a fresh ticket under the key of its account.
pub parse_message-admits :
    (env : Env) (s t : State) (task : Task) (c d : Client) (e : Event)
    → IsRequest env s task c e
    → is_success c.state ≡ false
    → parse_message env task s ≡ ok tt t
    → t.heap task.client ≡ some d
    → is_success d.state ≡ true
    → Credentials env e
parse_message-admits env s t task c d e v off done live on =
    subst (Guarded env e task.client) (sym (parse_message-handle env s task c e v) ∙ done)
      (handle-Guarded env s task.client c.fd e c v.ne_null v.live off) d live on
