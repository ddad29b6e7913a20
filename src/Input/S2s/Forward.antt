-- ===== src/Input/S2s/Forward.antt =====
-- What becomes of a message that one server forwards to the next.
use ichatd.Common.{
  ℕ, zero, suc, ◌+◌, ◌-◌, ◌≡◌, refl, ap, ◌∙◌, true, [], ◌∷◌, ◌++◌, some, arith, Bytes, length,
  length-append, take, drop, replicate, cut_at, cut_at-append, Lacks,
}
use ichatd.Decimal.{decimal}
use ichatd.Decimal.RoundTrip.{Lacks-decimal}
use ichatd.Buffer.{resized}
use ichatd.Proto.Ics2s.{ics2s_bytes, ichat_buffer_to_ics2s_iff, Separable}
use ichatd.Client.S2s.{forwarded}
use ichatd.Server.{Server, find_client, at_client}
use ichatd.Dispatch.{ichat_dispatch}
use ichatd.Input.{registered}
use ichatd.Input.S2s.{ichat_s2s_client_process_message, run_command, is_authenticated, stripped}
use ichatd.Input.S2s.Auth.{is_authenticated-update, registered-keeps}

take-nil : (n : ℕ) → take {A = ℕ} n [] ≡ []
take-nil zero = refl
take-nil (suc n) = refl

drop-replicate : (n m k x : ℕ) → m ≡ n + k → drop n (replicate m x) ≡ replicate k x
drop-replicate zero m k x h = let same : m ≡ k = omega arith in ap (λ j. replicate j x) same
drop-replicate (suc n) zero k x h = absurd (omega arith)
drop-replicate (suc n) (suc m) k x h = drop-replicate n m k x (omega arith)

-- The buffer is longer than the message by the size's digits and its zero byte.
stripped_lem :
    (msg : Bytes)
    → let text = decimal (length msg) ++ 0 ∷ msg in
      stripped (length text) (cut_at 0 text)
      ≡ some (msg ++ replicate (length (decimal (length msg)) + 1) 0)
stripped_lem msg =
    let number = decimal (length msg) in
    let n = length (number ++ 0 ∷ msg) in
    let size : n - 0 ≡ 0 + length msg + (length number + 1) =
      omega (arith, length-append number (0 ∷ msg)) in
    let zeros : drop (0 + length msg) (resized n []) ≡ replicate (length number + 1) 0 =
      ap (λ front. drop (0 + length msg) (front ++ replicate (n - 0) 0)) (take-nil n)
      ∙ drop-replicate (0 + length msg) (n - 0) (length number + 1) 0 size in
    rw (cut_at-append 0 number msg (Lacks-decimal (length msg)))
      (ap some (ap (λ z. msg ++ z) zeros))

-- What an authenticated server forwards, in the form in which `ichat_s2s_client_add_message` sends
-- it, with a name and a time without zero bytes, is dispatched with one zero byte behind it for
-- each digit of its size, and one more.
pub forward_lem :
    (stamp : ℕ → ℕ → Bytes) (s : Server) (ptr : ℕ) (name time msg : Bytes)
    → Lacks 0 name
    → Lacks 0 time
    → is_authenticated (find_client ptr s.clist) ≡ true
    → ichat_s2s_client_process_message stamp s ptr (ics2s_bytes (forwarded name time msg))
      ≡ ichat_dispatch stamp
          (at_client ptr (registered name) s)
          ptr
          (msg ++ replicate (length (decimal (length msg)) + 1) 0)
unfolding ichat_s2s_client_process_message run_command
forward_lem stamp s ptr name time msg name_ok time_ok opened =
    let ok : Separable (forwarded name time msg) = record {
      sender_ok = name_ok;
      timestamp_ok = time_ok;
      command_ok = ground arith;
    } in
    let parsed =
      (ichat_buffer_to_ics2s_iff (ics2s_bytes (forwarded name time msg))
          (forwarded name time msg)).1
        (refl, ok) in
    let opened' =
      is_authenticated-update (registered name) ptr s.clist (registered-keeps name) ∙ opened in
    rw (parsed, opened', stripped_lem msg) refl
