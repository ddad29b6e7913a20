-- ===== src/Proto/Login.antt =====
-- `s2s_make_login_msg` of src/ichat/proto/ics2s.c: the first message on a link to another server.
use ichatd.Common.{
  ℕ, ◌+◌, ◌≡◌, refl, sym, ap, ◌∙◌, [], ◌∷◌, ◌++◌, arith, Bytes, codes, length, length-append,
}
use ichatd.Decimal.{number_len, decimal}
use ichatd.Decimal.RoundTrip.{length-decimal}
use ichatd.Buffer.{resized}
use ichatd.Libc.{snprintf, snprintf_fits, resized-text}

abbrev login : Bytes
login = codes "LOGIN"

abbrev login_len : Bytes → Bytes → Bytes → ℕ
login_len server_name timestamp password =
    length server_name + 1 + length timestamp + 1 + length login + 1 + length password

-- [sender]\0[timestamp]\0LOGIN\0[password]
abbrev pub login_body : Bytes → Bytes → Bytes → Bytes
login_body server_name timestamp password =
    server_name ++ 0 ∷ (timestamp ++ 0 ∷ (login ++ 0 ∷ password))

-- `s2s_make_login_msg`; `timestamp` is what `make_timestamp` wrote. The buffer gets one byte more
-- for the zero that `snprintf` adds, and is trimmed.
unfoldable pub s2s_make_login_msg : Bytes → Bytes → Bytes → Bytes
s2s_make_login_msg server_name timestamp password =
    let len = login_len server_name timestamp password in
    let full_len = number_len len + 1 + len in
    let text = decimal len ++ 0 ∷ login_body server_name timestamp password in
    resized full_len (snprintf (full_len + 1) text (resized (full_len + 1) []))

length-login_body :
    (name stamp pass : Bytes) → length (login_body name stamp pass) ≡ login_len name stamp pass
length-login_body name stamp pass = omega (
  arith,
  length-append name (0 ∷ (stamp ++ 0 ∷ (login ++ 0 ∷ pass))),
  length-append stamp (0 ∷ (login ++ 0 ∷ pass)),
)

-- For every name, time and password the login message is its body behind the body's length in
-- decimal and a zero byte: nothing is cut off by the sizes that the code computes.
pub s2s_make_login_msg_lem :
    (name stamp pass : Bytes)
    → let body = login_body name stamp pass in
      s2s_make_login_msg name stamp pass ≡ decimal (length body) ++ 0 ∷ body
unfolding s2s_make_login_msg
s2s_make_login_msg_lem name stamp pass =
    let body = login_body name stamp pass in
    let len = login_len name stamp pass in
    let size = length-login_body name stamp pass in
    let text = decimal len ++ 0 ∷ body in
    let full : number_len len + 1 + len ≡ length text =
      omega (arith, length-append (decimal len) (0 ∷ body), length-decimal len) in
    ap (resized (number_len len + 1 + len)) (snprintf_fits (number_len len + 1 + len) text full)
    ∙ resized-text (number_len len + 1 + len) text full
    ∙ ap (λ n. decimal n ++ 0 ∷ body) (sym size)

login_message :
    s2s_make_login_msg (codes "me") (codes "20080708025348123") (codes "pw")
    ≡ codes "29" ++ 0 ∷ login_body (codes "me") (codes "20080708025348123") (codes "pw")
unfolding s2s_make_login_msg number_len decimal
login_message = refl
