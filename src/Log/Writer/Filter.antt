-- ===== src/Log/Writer/Filter.antt =====
-- Which messages the log keeps (src/log.c).
use ichatd.Common.{
  ◌≡◌, ◌∙◌, refl, sym, ap, ap₂, Bool, true, false, List, [], ◌∷◌, ◌++◌, append-nil, append_assoc,
  some, Bytes, ltb, Bool-cases, inl, inr, if◌then◌else◌,
}
use ichatd.Config.{LogLevel}
use ichatd.Log.Writer.{Log, rank, print2log, log_line, close_log}

-- A call of `print2log`.
pub record Message : Type 0 where
  pub ts : Bytes
  pub tid : Bytes
  pub level : LogLevel
  pub msg : Bytes

abbrev pub print_all : List Message → Log → Log
print_all [] l = l
print_all (m ∷ ms) l = print_all ms (print2log m.ts m.tid m.level m.msg l)

-- The lines of the messages that are no more verbose than the level of the log.
abbrev pub lines_for : LogLevel → List Message → Bytes
lines_for level [] = []
lines_for level (m ∷ ms) =
    if ltb (rank level) (rank m.level)
    then lines_for level ms
    else log_line m.ts m.tid m.msg ++ lines_for level ms

-- What is appended to the standard output.
abbrev pub echoed : Bool → Bytes → Bytes
echoed true text = text
echoed false text = []

abbrev pub opened : LogLevel → Bool → Bytes → Bytes → Log
opened level on contents out = record {
  log_file = some contents;
  log_level = level;
  log_write_stdout = on;
  stdout = out;
}

print-skipped :
    (m : Message) (level : LogLevel) (on : Bool) (contents out : Bytes)
    → ltb (rank level) (rank m.level) ≡ true
    → print2log m.ts m.tid m.level m.msg (opened level on contents out)
      ≡ opened level on contents out
unfolding print2log
print-skipped m level on contents out k = rw k refl

print-kept :
    (m : Message) (level : LogLevel) (on : Bool) (contents out : Bytes)
    → ltb (rank level) (rank m.level) ≡ false
    → let line = log_line m.ts m.tid m.msg in
      print2log m.ts m.tid m.level m.msg (opened level on contents out)
      ≡ opened level on (contents ++ line) (out ++ echoed on line)
unfolding print2log
print-kept m level true contents out k = rw k refl
print-kept m level false contents out k =
    rw k (ap (opened level false (contents ++ log_line m.ts m.tid m.msg)) (sym (append-nil out)))

echoed-append : (on : Bool) (x y : Bytes) → echoed on (x ++ y) ≡ echoed on x ++ echoed on y
echoed-append true x y = refl
echoed-append false x y = refl

-- Messages that are logged while a file is open append to it the lines of those whose level is not
-- above that of the log, each once and in their order, and to the standard output the same lines if
-- it is on; the file stays open and the level as it is.
pub print_all_lem :
    (ms : List Message) (level : LogLevel) (on : Bool) (contents out : Bytes)
    → print_all ms (opened level on contents out)
      ≡ opened level on (contents ++ lines_for level ms) (out ++ echoed on (lines_for level ms))
print_all_lem [] level true contents out =
    ap₂ (opened level true) (sym (append-nil contents)) (sym (append-nil out))
print_all_lem [] level false contents out =
    ap₂ (opened level false) (sym (append-nil contents)) (sym (append-nil out))
print_all_lem (m ∷ ms) level on contents out = elim (Bool-cases (ltb (rank level) (rank m.level))) [
  | inl k ↦
      rw (lines_for, k)
        (ap (print_all ms) (print-skipped m level on contents out k)
          ∙ print_all_lem ms level on contents out)
  | inr k ↦
      rw (lines_for, k)
        (ap (print_all ms) (print-kept m level on contents out k)
          ∙ print_all_lem ms level on (contents ++ line) (out ++ echoed on line)
          ∙ ap₂ (opened level on) (append_assoc contents line (lines_for level ms)) (
              append_assoc out (echoed on line) (echoed on (lines_for level ms))
              ∙ ap (λ x. out ++ x) (sym (echoed-append on line (lines_for level ms)))))
]
  where
    line : Bytes
    line = log_line m.ts m.tid m.msg

-- Without an open file nothing is written.
pub print_all-closed : (ms : List Message) (l : Log) → print_all ms (close_log l) ≡ close_log l
unfolding print2log close_log
print_all-closed [] l = refl
print_all-closed (m ∷ ms) l = print_all-closed ms l
