-- ===== src/Log/Escape.antt =====
-- What `log_print_array` writes is readable, and fits into the block that it takes.
use ichatd.Common.{◌≤◌, ◌<◌, [], ◌∷◌, Bytes}

abbrev pub AllPrintable : Bytes → Type 0
AllPrintable [] = Unit {0}
AllPrintable (c ∷ p) = (32 ≤ c) × (c < 127) × AllPrintable p

abbrev AllBytes : Bytes → Type 0
AllBytes [] = Unit {0}
AllBytes (c ∷ p) = (c < 256) × AllBytes p
