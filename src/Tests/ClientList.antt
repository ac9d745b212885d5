-- ===== src/Tests/ClientList.antt =====
-- The list of clients of 3.0/server at one client.
use as3chat.Common.{
  ℕ, ◌≡◌, refl, sym, subst, ◌∙◌, inl, inr, true, false, not, ◌&&◌, none, some, [], ◌∷◌, ◌++◌, arith,
}
use as3chat.Common.Tests.{◌==◌, if◌then◌else◌, Bool-cases}
use as3chat.Common.Int.{ℤ, pos, ◌==ℤ◌, ◌<ℤ◌}
use as3chat.Common.Text.{Bytes, str_eq}
use as3chat.Server3.Dict.{lookup}
use as3chat.Server3.Process.{Process, done, close}
use as3chat.Server3.ClientList.{add_client, remove_client, find_client, find_client_fd, keep_alive}
use as3chat.Server3.ClientList.Adding.{Valid, add_client-Valid}
use as3chat.Server3.ClientList.Removing.{remove_client-Valid}
use as3chat.Server3.ClientList.Expiry.{Past, keep_alive-Past}
use as3chat.Tests.Scene3.{
  eve_address, eve, unlisted_scene, scene3, unlisted_scene-Valid, scene3-Valid, eve-Live,
}

add_client-Valid_example :
    (t : Process) × (add_client eve_address unlisted_scene ≡ done true t)
    × Valid t
    × ((fd : ℤ)
        → find_client_fd fd t
          ≡ (if fd ==ℤ pos 7 then some eve_address else find_client_fd fd unlisted_scene))
    × ((name : Bytes)
        → find_client name t ≡ (
            if str_eq name [] && not (str_eq [] [])
            then some eve_address
            else find_client name unlisted_scene))
unfolding find_client_fd lookup
add_client-Valid_example =
    add_client-Valid unlisted_scene eve_address eve unlisted_scene-Valid eve-Live (inl refl) refl

remove_client-Valid_example :
    (t : Process) × (remove_client eve_address (scene3 []) ≡ done tt t)
    × Valid t
    × (t.heap eve_address ≡ none)
    × ((q : ℕ) → t.heap q ≡ (if q == eve_address then none else (scene3 []).heap q))
    × (t.calls ≡ [] ++ close (pos 7) ∷ [])
    × ((fd : ℤ)
        → find_client_fd fd t ≡ (if fd ==ℤ pos 7 then none else find_client_fd fd (scene3 [])))
    × ((name : Bytes)
        → find_client name t ≡ (if str_eq name [] then none else find_client name (scene3 [])))
remove_client-Valid_example =
    remove_client-Valid (scene3 []) eve_address eve (scene3-Valid []) eve-Live refl

scene3-Past : Past (pos 1000) (scene3 [])
scene3-Past p c h = elim (Bool-cases (p == eve_address)) [
  | inl here ↦
      let found : (if p == eve_address then some eve else none) ≡ some eve = rw here in
      let same : some eve ≡ some c = sym found ∙ h in
      let equal : eve ≡ c = cc in subst (λ d. (pos 1000 <ℤ d.lastresponsetime) ≡ false) equal refl
  | inr apart ↦ absurd (ground (arith, h))
]

keep_alive-Past_example : keep_alive (pos 1000) (scene3 []) ≡ done tt (scene3 [])
keep_alive-Past_example = keep_alive-Past (pos 1000) (scene3 []) (scene3-Valid []) scene3-Past
