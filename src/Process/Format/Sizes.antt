-- ===== src/Process/Format/Sizes.antt =====
-- The sizes that FormatBytes can show.
use pm.Process.Format.{scale, format_size, Size, in_bytes, scaled}
use pm.Prelude.{ℕ, ◌<◌, ◌≡◌, Option, none, some, arith, ltb, if◌then◌else◌, codes}

-- The unit of a size, by its range.
abbrev pub size_of : ℕ → Option Size
size_of b =
    if ltb b 1024
    then some (in_bytes b)
    else (if ltb b 1048576
        then some (scaled b 1024 (codes "kb"))
        else (if ltb b 1073741824
            then some (scaled b 1048576 (codes "mb"))
            else (if ltb b 1099511627776
                then some (scaled b 1073741824 (codes "gb"))
                else (if ltb b 1125899906842624
                    then some (scaled b 1099511627776 (codes "tb"))
                    else none))))

-- FormatBytes shows a 64-bit size in the unit of its range, and is out of range of its units exactly
-- from 1024^5 bytes on.
pub format_size_lem : (b : ℕ) → b < 18446744073709551616 → format_size b ≡ size_of b
unfolding format_size scale
format_size_lem b h = ground (arith, h)
