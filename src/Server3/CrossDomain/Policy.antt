-- ===== src/Server3/CrossDomain/Policy.antt =====
-- What a client of CrossDomain.cpp gets to read.
use as3chat.Common.{
  ℕ, zero, suc, ◌<◌, ◌≤◌, ◌%◌, ◌^◌, ◌≡◌, refl, sym, ap, ◌∙◌, inl, inr, Bool, true, false, none,
  some, List, [], ◌∷◌, ◌++◌, map, append_assoc, append-nil, arith,
}
use as3chat.Common.Tests.{ltb, ◌==◌, ==_refl, Bool-cases}
use as3chat.Common.Int.{ℤ, pos, minus_one, ◌==ℤ◌, ◌<ℤ◌}
use as3chat.Common.Lists.{length, take, take-length, drop, take-drop, length-drop}
use as3chat.Common.Text.{Bytes, c_string, str_eq_n}
use as3chat.Server3.Process.{Call, update_events, unregister, write, close}
use as3chat.Server3.CrossDomain.{
  PolicyServer, served, PolicySystem, PolicyEvent, buffer_size, policy_request, followed_by, ask,
  control_policy, set_socket, with_socket, drop_socket, judge_request, read_request, pieces,
  send_bytes, write_all, write_policy, handle_policy_event,
}

abbrev pub joined : List Bytes → Bytes
joined [] = []
joined (piece ∷ rest) = piece ++ joined rest

pieces-joined : (n : ℕ) (text : Bytes) → length text < n → joined (pieces n text) ≡ text
unfolding pieces
pieces-joined zero text h = absurd (omega arith)
pieces-joined (suc n) text h = elim (Bool-cases (ltb (length text) buffer_size)) [
  | inl last ↦ rw last (append-nil text)
  | inr more ↦
      let room : buffer_size ≤ length text = ground arith in
      let left = length-drop buffer_size text room in
      rw more (
        ap (λ rest. take buffer_size text ++ rest)
          (pieces-joined n (drop buffer_size text) (omega (arith, left, h)))
        ∙ take-drop buffer_size text)
]

-- Each write takes all that it is given.
abbrev pub TakesAll : PolicySystem → Type 0
TakesAll sys =
    (calls : List Call) (fd : ℤ) (bytes : Bytes) → sys.written calls fd bytes ≡ pos (length bytes)

send_bytes-all :
    (sys : PolicySystem) (fd : ℤ) (bytes : Bytes) (s : PolicyServer)
    → TakesAll sys
    → send_bytes sys fd bytes s ≡ ask (write fd bytes) s
unfolding send_bytes
send_bytes-all sys fd bytes s all = rw (all s.calls fd bytes, take-length bytes)

write_all-calls :
    (sys : PolicySystem) (fd : ℤ) (ps : List Bytes) (s : PolicyServer)
    → TakesAll sys
    → write_all sys fd ps s ≡ record s { calls = s.calls ++ map (write fd) ps }
unfolding write_all
write_all-calls sys fd [] s all = ap (λ l. record s { calls = l }) (sym (append-nil s.calls))
write_all-calls sys fd (piece ∷ ps) s all =
    ap (write_all sys fd ps) (send_bytes-all sys fd piece s all)
    ∙ write_all-calls sys fd ps (ask (write fd piece) s) all
    ∙ ap (λ l. record s { calls = l })
        (append_assoc s.calls (write fd piece ∷ []) (map (write fd) ps))

abbrev pub policy_input : ℕ → PolicyEvent
policy_input p = record { data_word = p; is_in = true; is_out = false }

abbrev pub policy_output : ℕ → PolicyEvent
policy_output p = record { data_word = p; is_in = false; is_out = true }

abbrev pub is_policy_sock : ℤ → ℕ → Bool
is_policy_sock main_sock p = pos (p % 2 ^ 32) ==ℤ main_sock

handle_policy_event-input :
    (sys : PolicySystem) (main_sock : ℤ) (s : PolicyServer) (p : ℕ) (fd : ℤ) (bytes : Bytes)
    → is_policy_sock main_sock p ≡ false
    → (p == 0) ≡ false
    → s.sockets p ≡ some fd
    → (fd <ℤ pos 0) ≡ false
    → sys.incoming s.calls fd ≡ some bytes
    → ltb (length bytes) buffer_size ≡ true
    → str_eq_n (length policy_request) (c_string bytes) policy_request ≡ true
    → sys.epoll_ctl s.calls (update_events fd true p) ≡ true
    → handle_policy_event sys main_sock (policy_input p) s
      ≡ served (ask (update_events fd true p) s)
unfolding handle_policy_event with_socket read_request judge_request control_policy
handle_policy_event-input sys main_sock s p fd bytes apart here live opened came short asked
      accepted =
    rw (apart, here, live, opened, read_request, came, short, asked, accepted)

handle_policy_event-output :
    (sys : PolicySystem) (main_sock : ℤ) (s : PolicyServer) (p : ℕ) (fd : ℤ) (text : Bytes)
    → is_policy_sock main_sock p ≡ false
    → (p == 0) ≡ false
    → s.sockets p ≡ some fd
    → (fd <ℤ pos 0) ≡ false
    → sys.file ≡ some text
    → (fd ==ℤ minus_one) ≡ false
    → ((calls : List Call) (asked : Call) → sys.epoll_ctl calls asked ≡ true)
    → TakesAll sys
    → handle_policy_event sys main_sock (policy_output p) s
      ≡ served (
          ask (close fd) (
            ask (unregister fd) (
              set_socket p none (record s {
                calls = s.calls ++ map (write fd) (pieces (suc (length text)) text);
              }))))
unfolding handle_policy_event with_socket write_policy drop_socket control_policy
handle_policy_event-output sys main_sock s p fd text apart here live opened file real accepted all =
    let ps = pieces (suc (length text)) text in
    let t : PolicyServer = record s { calls = s.calls ++ map (write fd) ps } in
    rw (
      apart,
      here,
      live,
      opened,
      write_policy,
      file,
      write_all-calls sys fd ps s all,
      accepted t.calls (unregister fd),
      real,
    )

calls-order :
    (xs ps : List Call) (a b c : Call)
    → xs ++ a ∷ [] ++ ps ++ b ∷ [] ++ c ∷ [] ≡ xs ++ a ∷ (ps ++ b ∷ c ∷ [])
calls-order [] [] a b c = refl
calls-order [] (p ∷ ps) a b c = ap (λ l. a ∷ p ∷ l) (append_assoc ps (b ∷ []) (c ∷ []))
calls-order (x ∷ xs) ps a b c = ap (λ l. x ∷ l) (calls-order xs ps a b c)

-- A client that asks for the policy gets the whole file and nothing else, in pieces, and then its
-- connection is closed and its socket freed. Conditions: the client is alive with an open descriptor; what
-- comes from it is shorter than the buffer and begins with the request; the file can be read; epoll reports
-- no error; each write takes all that it is given; the word of the client is not the descriptor of the main socket.
pub handle_policy_event-serves :
    (sys : PolicySystem) (main_sock : ℤ) (s : PolicyServer) (p : ℕ) (fd : ℤ) (bytes text : Bytes)
    → is_policy_sock main_sock p ≡ false
    → (p == 0) ≡ false
    → s.sockets p ≡ some fd
    → (fd <ℤ pos 0) ≡ false
    → sys.incoming s.calls fd ≡ some bytes
    → ltb (length bytes) buffer_size ≡ true
    → str_eq_n (length policy_request) (c_string bytes) policy_request ≡ true
    → sys.file ≡ some text
    → ((calls : List Call) (asked : Call) → sys.epoll_ctl calls asked ≡ true)
    → ((calls : List Call) (to : ℤ) (taken : Bytes)
        → sys.written calls to taken ≡ pos (length taken))
    → (t : PolicyServer) × (ps : List Bytes) × (followed_by
          (handle_policy_event sys main_sock (policy_input p) s)
          (handle_policy_event sys main_sock (policy_output p))
        ≡ served t)
      × (t.sockets p ≡ none)
      × (joined ps ≡ text)
      × (t.calls
          ≡ s.calls
            ++ update_events fd true p ∷ (map (write fd) ps ++ unregister fd ∷ close fd ∷ []))
handle_policy_event-serves sys main_sock s p fd bytes text apart here live opened came short asked
      file accepted all =
    let u : PolicyServer = ask (update_events fd true p) s in
    let ps = pieces (suc (length text)) text in
    let real : (fd ==ℤ minus_one) ≡ false = ground arith in
    let input =
      handle_policy_event-input sys main_sock s p fd bytes apart here live opened came short asked
        (accepted s.calls (update_events fd true p)) in
    let output =
      handle_policy_event-output sys main_sock u p fd text apart here live opened file real accepted
        all in
    (
      ask (close fd) (
          ask (unregister fd)
            (set_socket p none (record u { calls = u.calls ++ map (write fd) ps }))),
      ps,
      ap (λ r. followed_by r (handle_policy_event sys main_sock (policy_output p))) input ∙ output,
      rw (==_refl p),
      pieces-joined (suc (length text)) text (omega arith),
      calls-order s.calls (map (write fd) ps) (update_events fd true p) (unregister fd) (close fd),
    )
