-- ===== src/Logfile/Escape.antt =====
-- logfile/escape.go: one logical line, with its special bytes made visible.
pub mod Laws
use pm.Prelude.{
  ℕ, zero, suc, ◌+◌, ◌-◌, ◌*◌, ◌/◌, ◌%◌, ◌≤◌, ◌<◌, ◌≡◌, refl, sym, ap, ◌∙◌, subst, ◌≢◌, ◌↔◌, ◌⊎◌,
  inl, inr, Bool, true, false, not, ◌&&◌, ◌||◌, Option, none, some, List, [], ◌∷◌, ◌++◌, map, arith,
  ltb, leb, ◌==◌, if◌then◌else◌, ltb→lt, lt→ltb, leb→le, le→leb, ==_iff, tests, Bool-cases,
  Option-cases, or-cases, and-parts, length, take, drop, length-append, take-append-drop, All,
  All-append, All-mono, Text, codes, same, same_eq, same_refl, same_iff, is_empty, text_le,
  contains, insert_text, sort_texts, contains-sort_texts, contains-append, join, Dict, dict_keys,
  get, put, remove, get-put, get-remove, put-put, remove-put, length-put, length-remove,
  get-put_self, contains-dict_keys, get_of_contains, Result, ok, err, ◌>>=◌, ◌>>◌, Result-cases, ℤ,
  pos, negsuc, is_negative, is_zero, is_positive,
}

-- lowerHex[d], for a digit below 16.
unfoldable pub lower_hex : ℕ → ℕ
lower_hex d = if ltb d 10 then b'0' + d else b'a' + (d - 10)

abbrev pub backslash : ℕ
backslash = 92

abbrev pub newline : ℕ
newline = 10

-- logEscape: the text for a special byte, none for a plain one.
unfoldable pub log_escape : ℕ → Option Text
unfolding lower_hex
log_escape b =
    if b == 7
    then some (backslash ∷ b'a' ∷ [])
    else (if b == 8
        then some (backslash ∷ b'b' ∷ [])
        else (if b == 9
            then some (backslash ∷ b't' ∷ [])
            else (if b == 10
                then some (backslash ∷ b'n' ∷ newline ∷ [])
                else (if b == 11
                    then some (backslash ∷ b'v' ∷ [])
                    else (if b == 12
                        then some (backslash ∷ b'f' ∷ [])
                        else (if b == 13
                            then some (backslash ∷ b'r' ∷ [])
                            else (if b == 34
                                then some (backslash ∷ 34 ∷ [])
                                else (if b == backslash
                                    then some (backslash ∷ backslash ∷ [])
                                    else (if ltb b 32 || b == 127
                                        then some (
                                            backslash
                                            ∷ b'x'
                                            ∷ lower_hex (b / 16)
                                            ∷ lower_hex (b % 16)
                                            ∷ [])
                                        else none)))))))))

-- How a Write of the io.Writer goes: whole, or with an error or a short count after some bytes.
pub data Write : Type 0 where
  whole : Write
  fails : ℕ → Write
  short : ℕ → Write

-- What was written so far, and how the next writes will go; past the list they succeed.
pub record Output : Type 0 where
  pub text : Text
  pub script : List Write

pub record Written : Type 0 where
  pub output : Output
  pub count : ℕ
  pub complete : Bool

abbrev pub at_most : ℕ → Text → ℕ
at_most n p = if ltb n (length p) then n else length p

-- output.Write(p): the output, the count and whether the caller stops. A short count without an
-- error stops it too, as io.ErrShortWrite, unless all bytes were taken.
unfoldable pub write_as : Write → Text → Output → Output × ℕ × Bool
write_as whole p o = (record o { text = o.text ++ p }, length p, false)
write_as (fails n) p o = (record o { text = o.text ++ take n p }, at_most n p, true)
write_as (short n) p o = (record o { text = o.text ++ take n p }, at_most n p, ltb n (length p))

unfoldable pub write_to : List Write → Text → Text → Output × ℕ × Bool
unfolding write_as
write_to [] p text = write_as whole p (record { text = text; script = [] })
write_to (w ∷ ws) p text = write_as w p (record { text = text; script = ws })

unfoldable pub write : Text → Output → Output × ℕ × Bool
unfolding write_to
write p o = write_to o.script p o.text

-- The plain bytes before a special one, if there are any.
unfoldable pub flush : Text → Output → Output × ℕ × Bool
unfolding write
flush plain o = if is_empty plain then (o, 0, false) else write plain o

-- Where the loop stands after a special byte: the output, the count, and whether it stops there.
pub record Progress : Type 0 where
  pub output : Output
  pub count : ℕ
  pub stops : Bool

-- The plain bytes and then the escape. The special byte counts once its escape is written.
unfoldable pub write_special : Text → ℕ → Text → Output → Progress
unfolding flush
write_special plain count escaped o =
    let p = flush plain o in
    let q = write escaped p.0 in
    if p.2
    then record { output = p.0; count = count + p.1; stops = true }
    else (if q.2
        then record { output = q.0; count = count + p.1; stops = true }
        else record { output = q.0; count = count + p.1 + 1; stops = false })

pub data Escaped : Type 0 where
  returned : Written → Escaped
  failed : Written → Escaped

-- The loop of writeEscapedLine over the rest of the input, with the plain bytes since the last
-- special one and the count so far.
unfoldable pub escape_from : Text → ℕ → Text → Output → Escaped
unfolding write_special log_escape
escape_from plain count [] o =
    let p = flush plain o in
    let w : Written = record { output = p.0; count = count + p.1; complete = false } in
    if p.2 then failed w else returned w
escape_from plain count (b ∷ bs) o = elim (log_escape b) [
  | none ↦ escape_from (plain ++ b ∷ []) count bs o
  | some escaped ↦
      let p = write_special plain count escaped o in
      let next = escape_from [] p.count bs p.output in
      let w : Written = record { output = p.output; count = p.count; complete = false } in
      if p.stops
      then failed w
      else (if b == newline then returned (record w { complete = true }) else next)
]

-- writeEscapedLine.
unfoldable pub write_escaped_line : Text → Output → Escaped
unfolding escape_from
write_escaped_line input o = escape_from [] 0 input o
