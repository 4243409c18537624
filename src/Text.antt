-- ===== src/Text.antt =====
-- What the source uses of Rust's `str`, over the native texts.
use Prim.Native.Char.{Char, code}
use Prim.Native.String.{String, len, slice}
use text.Mathlib.Text.{starts_with}
use thalovant_rust_sdk.Prelude.{
  Bool, true, ◌&&◌, ◌||◌, Option, none, some, leb, ◌==◌, if◌then◌else◌,
}

-- `char::is_whitespace`: the code points of the Unicode property White_Space.
abbrev pub is_whitespace : Char → Bool
is_whitespace c =
    leb 0x9 (code c) && leb (code c) 0xd
    || (code c == 0x20
        || (code c == 0x85
            || (code c == 0xa0
                || (code c == 0x1680
                    || (leb 0x2000 (code c) && leb (code c) 0x200a
                        || (code c == 0x2028
                            || (code c == 0x2029
                                || (code c == 0x202f
                                    || (code c == 0x205f || code c == 0x3000)))))))))

-- `text.trim().is_empty()`.
unfoldable pub is_blank : String → Bool
is_blank String.[] = true
is_blank (String.◌∷◌ c s) = is_whitespace c && is_blank s

unfoldable pub trim_start : String → String
trim_start String.[] = String.[]
trim_start (String.◌∷◌ c s) =
    let rest = trim_start s in if is_whitespace c then rest else String.◌∷◌ c s

unfoldable pub trim_end : String → String
unfolding is_blank
trim_end String.[] = String.[]
trim_end (String.◌∷◌ c s) =
    let rest = String.◌∷◌ c (trim_end s) in if is_blank (String.◌∷◌ c s) then String.[] else rest

unfoldable pub trim : String → String
unfolding trim_start trim_end
trim s = trim_end (trim_start s)

-- `str::strip_prefix`.
unfoldable pub strip_prefix : String → String → Option String
strip_prefix s p = if starts_with s p then some (slice s (len p) (len s)) else none
