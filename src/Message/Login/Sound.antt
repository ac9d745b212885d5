-- ===== src/Message/Login/Sound.antt =====
-- `EV_TYPE_AUTH` of 1.0/server/message.c: what a login is accepted on.
use Prim.Native.String.{String}
use as3chat.Common.{
  ℕ, ◌≡◌, refl, sym, ap, subst, ◌∙◌, ◌≢◌, inl, inr, Bool, true, false, Option, none, some,
}
use as3chat.Common.Tests.{if◌then◌else◌, ==_refl, Bool-cases, Option-cases}
use as3chat.Common.Int.{pos, ◌==ℤ◌}
use as3chat.Common.Text.{Bytes, atoi, str_eq, snprintf, strncpy}
use as3chat.Server.{
  max_char_length, Ptr, null, Client, FdState, State, Run, ok, fault, out_of_fuel, Cmd, and_then,
  pure, fail,
}
use as3chat.Server.Commands.{update}
use as3chat.External.{Event}
use as3chat.LuaFunctions.{lua_load_key}
use as3chat.Database.{get_password}
use as3chat.Database.Columns.{Unchanged, get_password-Unchanged}
use as3chat.Rooms.{send_message}
use as3chat.Rooms.Unlink.{modify-ok}
use as3chat.Message.Login.{
  Env, attr, refuse, log_in_guest, login_name, set_name, salted_digest, check_password, ticket_text,
  ticket_hash, is_fresh, check_ticket, log_in_ticket, log_in_signed, log_in_named, is_guest,
  authenticate, guest_name,
}

-- What lets a client in: the wish to be a guest, the password whose salted digest the database holds,
-- or a fresh ticket under the key of an account.
pub data Credentials (env : Env) (e : Event) : Type 0 where
  guest : is_guest e ≡ true → Credentials env e
  password :
      (username secret stored salt digest : Bytes) (s : State)
      → attr "username" e ≡ some username
      → attr "password" e ≡ some secret
      → get_password env.external.mysql env.config username s ≡ ok (some (stored, salt)) s
      → salted_digest env secret salt ≡ some digest
      → str_eq digest stored ≡ true
      → Credentials env e
  ticket :
      (username account sign time key hash : Bytes)
      → attr "username" e ≡ some username
      → attr "account" e ≡ some account
      → attr "sign" e ≡ some sign
      → attr "timestamp" e ≡ some time
      → is_fresh env.now (atoi time) ≡ true
      → lua_load_key env.external.lua account ≡ some key
      → ticket_hash env (ticket_text key username time) sign ≡ some hash
      → str_eq hash sign ≡ true
      → Credentials env e

-- The client at `p` is live and in this login state.
pub record InState (s : State) (p : Ptr) (state : FdState) : Type 0 where
  pub client : Client
  pub live : s.heap p ≡ some client
  pub same : client.state ≡ state

-- A login is accepted with credentials only, and a refusal leaves the login state.
abbrev pub Judged : Env → Event → Ptr → FdState → Run Bool → Type 0
Judged env e p state (ok true t) = Credentials env e
Judged env e p state (ok false t) = InState t p state
Judged env e p state fault = Unit
Judged env e p state out_of_fuel = Unit

module _ (env : Env) (e : Event) (p : Ptr) (fd : ℕ) (state : FdState) where
  refuse-Judged :
      (s : State) (text : String) → InState s p state → Judged env e p state (refuse fd text s)
  unfolding refuse send_message
  refuse-Judged s text i = record { client = i.client; live = i.live; same = i.same }

  -- After `set_name` the name is another and the login state is not.
  set_name-then :
      (s : State) (account : Option Bytes) (username : Bytes) (next : Cmd Bool)
      → p ≢ null
      → InState s p state
      → ((t : State) → InState t p state → Judged env e p state (next t))
      → Judged env e p state (and_then (set_name env p account username s) (λ _. next))
  unfolding set_name update
  set_name-then s account username next n i judge =
      elim (Option-cases (login_name env account username)) [
        | inl bad ↦ rw (bad, set_name) tt
        | inr (array, good) ↦
            rw
              (
                good,
                set_name,
                modify-ok p (λ b. record b { anonymous = pos 0; username = array }) s i.client n
                    i.live,
              )
              (judge _ (record {
                client = record i.client { anonymous = pos 0; username = array };
                live = rw (==_refl p);
                same = i.same;
              }))
      ]

  check_password-Judged :
      (s : State) (username secret : Bytes)
      → InState s p state
      → attr "username" e ≡ some username
      → attr "password" e ≡ some secret
      → Judged env e p state (check_password env fd username secret s)
  unfolding check_password
  check_password-Judged s username secret i eu ep =
      judge_row (get_password env.external.mysql env.config username s) refl
        (get_password-Unchanged env.external.mysql env.config username s)
    where
      judge_row :
          (row : Run (Option (Bytes × Bytes)))
          → get_password env.external.mysql env.config username s ≡ row
          → Unchanged s row
          → Judged env e p state (
              and_then row (λ found. elim found [
                | none ↦ refuse fd "密码错误"
                | some (stored, salt) ↦ elim (salted_digest env secret salt) [
                  | none ↦ fail
                  | some digest ↦ if str_eq digest stored then pure true else refuse fd "密码错误"
                ]
              ]))
      judge_row fault q u = tt
      judge_row out_of_fuel q u = tt
      judge_row (ok none t) q u = refuse-Judged t "密码错误" (subst (λ z. InState z p state) (sym u) i)
      judge_row (ok (some (stored, salt)) t) q u =
          elim (Option-cases (salted_digest env secret salt)) [
            | inl long ↦ rw (long, Judged) tt
            | inr (digest, ed) ↦ elim (Bool-cases (str_eq digest stored)) [
              | inl hit ↦
                  rw (ed, hit, Judged)
                    (password username secret stored salt digest s eu ep
                      (q ∙ ap (ok (some (stored, salt))) u) ed hit)
              | inr miss ↦
                  rw (ed, miss, Judged)
                    (refuse-Judged t "密码错误" (subst (λ z. InState z p state) (sym u) i))
            ]
          ]

  check_ticket-Judged :
      (s : State) (username account sign time : Bytes)
      → InState s p state
      → attr "username" e ≡ some username
      → attr "account" e ≡ some account
      → attr "sign" e ≡ some sign
      → attr "timestamp" e ≡ some time
      → Judged env e p state (check_ticket env fd username account sign time s)
  unfolding check_ticket
  check_ticket-Judged s username account sign time i eu ea es et =
      elim (Bool-cases (is_fresh env.now (atoi time))) [
        | inr stale ↦ rw (stale, check_ticket) (refuse-Judged s "验证过期" i)
        | inl fresh ↦ elim (Option-cases (lua_load_key env.external.lua account)) [
          | inl no_key ↦ rw (fresh, no_key, check_ticket) tt
          | inr (key, ek) ↦
              elim (Option-cases (ticket_hash env (ticket_text key username time) sign)) [
                | inl no_hash ↦ rw (fresh, ek, no_hash, check_ticket) tt
                | inr (hash, eh) ↦ elim (Bool-cases (str_eq hash sign)) [
                  | inl hit ↦
                      rw (fresh, ek, eh, hit, check_ticket)
                        (ticket username account sign time key hash eu ea es et fresh ek eh hit)
                  | inr miss ↦ rw (fresh, ek, eh, miss, check_ticket) (refuse-Judged s "验证码错误" i)
                ]
              ]
        ]
      ]

  log_in_ticket-Judged :
      (s : State) (username account sign time : Bytes)
      → p ≢ null
      → InState s p state
      → attr "username" e ≡ some username
      → attr "account" e ≡ some account
      → attr "sign" e ≡ some sign
      → attr "timestamp" e ≡ some time
      → Judged env e p state (log_in_ticket env p fd username account sign time s)
  unfolding log_in_ticket
  log_in_ticket-Judged s username account sign time n i eu ea es et =
      elim (Bool-cases (atoi time ==ℤ pos 0)) [
        | inl never ↦ rw (never, log_in_ticket) (refuse-Judged s "请输入用户名和密码" i)
        | inr sent ↦
            rw (sent, log_in_ticket)
              (set_name-then s (some account) username
                (check_ticket env fd username account sign time) n i
                (λ t j. check_ticket-Judged t username account sign time j eu ea es et))
      ]

  log_in_signed-Judged :
      (s : State) (username : Bytes)
      → p ≢ null
      → InState s p state
      → attr "username" e ≡ some username
      → Judged env e p state (log_in_signed env p fd e username s)
  unfolding log_in_signed
  log_in_signed-Judged s username n i eu = elim (Option-cases (attr "sign" e)) [
    | inl bare ↦ rw (bare, log_in_signed) (refuse-Judged s "请输入用户名和密码" i)
    | inr (sign, es) ↦ elim (Option-cases (attr "account" e)) [
      | inl bare ↦ rw (es, bare, log_in_signed) (refuse-Judged s "请输入用户名和密码" i)
      | inr (account, ea) ↦ elim (Option-cases (attr "timestamp" e)) [
        | inl bare ↦ rw (es, ea, bare, log_in_signed) (refuse-Judged s "请输入用户名和密码" i)
        | inr (time, et) ↦
            rw (es, ea, et, log_in_signed)
              (log_in_ticket-Judged s username account sign time n i eu ea es et)
      ]
    ]
  ]

  log_in_named-Judged :
      (s : State) (username : Bytes)
      → p ≢ null
      → InState s p state
      → attr "username" e ≡ some username
      → Judged env e p state (log_in_named env p fd e username s)
  unfolding log_in_named
  log_in_named-Judged s username n i eu = elim (Option-cases (attr "password" e)) [
    | inl bare ↦ rw (bare, log_in_named) (log_in_signed-Judged s username n i eu)
    | inr (secret, ep) ↦
        rw (ep, log_in_named)
          (set_name-then s (attr "account" e) username (check_password env fd username secret) n i
            (λ t j. check_password-Judged t username secret j eu ep))
  ]

-- A login that is accepted has credentials: the client asked to be a guest, or gave the password whose
-- salted digest the database holds, or a fresh ticket under its account's key. A refusal leaves the
-- login state of the client. Condition: the client is live.
pub authenticate-Judged :
    (env : Env) (e : Event) (p : Ptr) (fd : ℕ) (state : FdState) (s : State)
    → p ≢ null
    → InState s p state
    → Judged env e p state (authenticate env p fd e s)
unfolding authenticate log_in_guest
authenticate-Judged env e p fd state s n i = elim (Bool-cases (is_guest e)) [
  | inl asked ↦
      rw
        (
          asked,
          authenticate,
          log_in_guest,
          modify-ok p
              (λ b. record b {
                anonymous = pos 1;
                username = strncpy max_char_length (snprintf max_char_length (guest_name env.now));
              })
              s i.client n i.live,
          Judged,
        )
        (guest asked)
  | inr named ↦ elim (Option-cases (attr "username" e)) [
    | inl bare ↦ rw (named, bare, authenticate) (refuse-Judged env e p fd state s "请输入用户名和密码" i)
    | inr (username, eu) ↦
        rw (named, eu, authenticate) (log_in_named-Judged env e p fd state s username n i eu)
  ]
]
