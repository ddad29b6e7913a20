-- ===== src/Tests/Wire.antt =====
-- Numbers, messages, the configuration file and the log at concrete inputs.
use ichatd.Common.{◌≡◌, ◌↔◌, ◌⊎◌, refl, true, false, [], ◌∷◌, ◌++◌, some, arith, codes, pos}
use ichatd.Decimal.{decimal, strtol}
use ichatd.Decimal.RoundTrip.{strtol-decimal}
use ichatd.Proto.Icc2s
use ichatd.Proto.Icc2s.{Icc2s, ichat_buffer_to_icc2s, ichat_buffer_to_icc2s_iff, icc2s_bytes}
use ichatd.Proto.Ics2s
use ichatd.Proto.Ics2s.{Ics2s, ichat_buffer_to_ics2s, ichat_buffer_to_ics2s_iff, ics2s_bytes}
use ichatd.Frame.{frame, next_frame, message, wait}
use ichatd.Frame.RoundTrip.{next_frame-frame}
use ichatd.Frame.Chunks.{next_frame-append, extend}
use ichatd.Config.{config_alloc}
use ichatd.Config.Option.{parse_s2s}
use ichatd.Config.Option.Laws
use ichatd.Config.Option.Laws.{parse_option_port, parse_option_wraps}
use ichatd.Config.Option.Server.{parse_s2s_lem}
use ichatd.Config.File.{parse_config}
use ichatd.Config.File.Laws.{parse_config-IsValid}

strtol-decimal_example :
    strtol (decimal 4192 ++ 0 ∷ codes "7")
    ≡ record { value = pos 4192; used = true; erange = false }
strtol-decimal_example = strtol-decimal 4192 (0 ∷ codes "7") (omega arith) refl

abbrev hello : Icc2s
hello = record {
  sender = codes "nick";
  command = codes "M";
  receiver = codes "*";
  msg_data = codes "hello everyone";
}

ichat_buffer_to_icc2s_iff_example :
    (ichat_buffer_to_icc2s (icc2s_bytes hello) ≡ some hello)
    ↔ ((icc2s_bytes hello ≡ icc2s_bytes hello) × Icc2s.Separable hello)
ichat_buffer_to_icc2s_iff_example = ichat_buffer_to_icc2s_iff (icc2s_bytes hello) hello

abbrev greeting : Ics2s
greeting = record {
  sender = codes "there";
  timestamp = codes "20080708025348123";
  command = codes "LOGIN";
  msg_data = codes "hello world";
}

ichat_buffer_to_ics2s_iff_example :
    (ichat_buffer_to_ics2s (ics2s_bytes greeting) ≡ some greeting)
    ↔ ((ics2s_bytes greeting ≡ ics2s_bytes greeting) × Ics2s.Separable greeting)
ichat_buffer_to_ics2s_iff_example = ichat_buffer_to_ics2s_iff (ics2s_bytes greeting) greeting

next_frame-frame_example :
    next_frame (frame (codes "abcdefghijklmnopqrst") ++ codes "23")
    ≡ message (codes "abcdefghijklmnopqrst") (codes "23")
next_frame-frame_example =
    next_frame-frame (codes "abcdefghijklmnopqrst") (codes "23") (omega arith) (omega arith)

next_frame-append_example :
    (next_frame (codes "20") ≡ wait)
    ⊎ (next_frame (codes "20" ++ codes "23") ≡ extend (codes "23") (next_frame (codes "20")))
next_frame-append_example = next_frame-append (codes "20") (codes "23")

parse_config-IsValid_example :
    Laws.IsValid (parse_config (λ n. []) config_alloc (some (codes "port 70000\nserverport 7\n"))).1
unfolding config_alloc
parse_config-IsValid_example =
    parse_config-IsValid (λ n. []) config_alloc (some (codes "port 70000\nserverport 7\n"))
      (record { user_ok = omega arith; ctl_ok = omega arith; me_ok = omega arith; queue_ok = tt })

parse_s2s_lem_example :
    parse_s2s [] (codes "there" ++ b' ' ∷ (decimal 6767 ++ b' ' ∷ codes "pw"))
    ≡ some (record { host = codes "there"; port = 6767; pass = codes "pw" })
parse_s2s_lem_example =
    parse_s2s_lem [] (codes "there") 6767 (codes "pw") (ground arith) (omega arith)
