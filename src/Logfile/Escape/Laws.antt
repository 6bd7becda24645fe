-- ===== src/Logfile/Escape/Laws.antt =====
-- What the escaping shows of its input, and that it can be read back.
use mathlib.Core.Path.{ap₂}
use mathlib.Core.List.{append-nil, append_assoc}
use pm.Logfile.Escape.{
  write_escaped_line, Escaped, write_to, returned, write, Output, write_special, escape_from, flush,
  lower_hex, log_escape, backslash, newline,
}
use pm.Prelude.{
  ℕ, zero, suc, ◌+◌, ◌-◌, ◌*◌, ◌/◌, ◌%◌, ◌<◌, ◌≡◌, refl, sym, ap, ◌∙◌, inl, inr, Bool, true, false,
  ◌&&◌, ◌||◌, Option, none, some, [], ◌∷◌, ◌++◌, arith, ltb, ◌==◌, if◌then◌else◌, Bool-cases,
  Option-cases, length, length-append, Text,
}

-- The escaping of one byte, apart from any writer.
abbrev pub escape_byte : ℕ → Text
escape_byte b = elim (log_escape b) [ none ↦ b ∷ [] | some t ↦ t ]

-- The first logical line of the input and its newline.
unfoldable pub first_line : Text → Text
first_line [] = []
first_line (b ∷ bs) = if b == newline then b ∷ [] else b ∷ first_line bs

unfoldable pub escape_all : Text → Text
escape_all [] = []
escape_all (b ∷ bs) = escape_byte b ++ escape_all bs

-- Reading an escaped byte back: the byte and the rest.
unhex : ℕ → ℕ
unhex c = if ltb c b'a' then c - b'0' else c - b'a' + 10

simple_escape : ℕ → Option ℕ
simple_escape c =
    if c == b'a'
    then some 7
    else (if c == b'b'
        then some 8
        else (if c == b't'
            then some 9
            else (if c == b'v'
                then some 11
                else (if c == b'f'
                    then some 12
                    else (if c == b'r'
                        then some 13
                        else (if c == 34
                            then some 34
                            else (if c == backslash then some backslash else none)))))))

after_backslash : Text → Option (ℕ × Text)
after_backslash [] = none
after_backslash (c ∷ []) = elim (simple_escape c) [ none ↦ none | some b ↦ some (b, []) ]
after_backslash (c ∷ d ∷ []) = elim (simple_escape c) [
  | none ↦ if c == b'n' && d == newline then some (newline, []) else none
  | some b ↦ some (b, d ∷ [])
]
after_backslash (c ∷ d ∷ e ∷ r) = elim (simple_escape c) [
  | none ↦
      if c == b'n' && d == newline
      then some (newline, e ∷ r)
      else (if c == b'x' then some (unhex d * 16 + unhex e, r) else none)
  | some b ↦ some (b, d ∷ e ∷ r)
]

pub read_byte : Text → Option (ℕ × Text)
unfolding after_backslash simple_escape unhex
read_byte [] = none
read_byte (c ∷ r) = if c == backslash then after_backslash r else some (c, r)

unhex-lower_hex : (d : ℕ) → d < 16 → unhex (lower_hex d) ≡ d
unfolding unhex lower_hex
unhex-lower_hex d h = ground arith

-- A special byte below 128 splits into two hexadecimal digits.
hex_parts : (b : ℕ) → b < 128 → (b / 16 < 16) × (b % 16 < 16) × (b / 16 * 16 + b % 16 ≡ b)
hex_parts b h = omega arith

read_hex :
    (b : ℕ) (r : Text)
    → b < 128
    → read_byte (backslash ∷ b'x' ∷ lower_hex (b / 16) ∷ lower_hex (b % 16) ∷ r) ≡ some (b, r)
unfolding read_byte
read_hex b r h =
    let (p, q, e) = hex_parts b h in
    ap₂ (λ x y. some (x * 16 + y, r)) (unhex-lower_hex (b / 16) p) (unhex-lower_hex (b % 16) q)
    ∙ ap (λ x. some (x, r)) e

-- Every byte is read back from its escape, whatever follows: no two inputs have the same escape.
pub read_byte-escape_byte : (b : ℕ) (r : Text) → read_byte (escape_byte b ++ r) ≡ some (b, r)
unfolding log_escape
read_byte-escape_byte b r = elim (Bool-cases (ltb b 32 || b == 127)) [
  | inl e ↦ unfold read_byte in ground (arith, read_hex b r)
  | inr e ↦ unfold read_byte in ground arith
]

-- Reading a whole text back, by fuel: each byte takes a round.
pub read_all : ℕ → Text → Option Text
read_all zero t = none
read_all (suc f) [] = some []
read_all (suc f) (c ∷ t) = elim (read_byte (c ∷ t)) [
  | none ↦ none
  | some p ↦ elim (read_all f p.1) [ none ↦ none | some bs ↦ some (p.0 ∷ bs) ]
]

read_all-step :
    (f : ℕ) (t : Text) (b : ℕ) (r : Text)
    → read_byte t ≡ some (b, r)
    → (bs : Text) → read_all f r ≡ some bs
    → read_all (suc f) t ≡ some (b ∷ bs)
unfolding read_all
read_all-step f [] b r h bs k = unfold read_byte in cc
read_all-step f (c ∷ t) b r h bs k = ground (arith, h, k)

-- A log line can be read back whole: what escaping wrote determines the input.
pub read_all-escape_all : (s : Text) → read_all (suc (length s)) (escape_all s) ≡ some s
unfolding escape_all
read_all-escape_all [] = unfold read_all in refl
read_all-escape_all (b ∷ s) =
    read_all-step (suc (length s)) (escape_byte b ++ escape_all s) b (escape_all s)
      (read_byte-escape_byte b (escape_all s)) s (read_all-escape_all s)

abbrev pub sound_output : Text → Output
sound_output text = record { text = text; script = [] }

flush_lem :
    (plain text : Text)
    → flush plain (sound_output text) ≡ (sound_output (text ++ plain), length plain, false)
unfolding flush write write_to
flush_lem [] text = ap (λ t. (sound_output t, 0, false)) (sym (append-nil text))
flush_lem (b ∷ plain) text = refl

write_special_lem :
    (plain : Text) (count : ℕ) (escaped text : Text)
    → write_special plain count escaped (sound_output text) ≡ record {
      output = sound_output ((text ++ plain) ++ escaped);
      count = count + length plain + 1;
      stops = false;
    }
unfolding write_special write write_to
write_special_lem plain count escaped text = rw (flush_lem plain text) refl

abbrev pub has_newline : Text → Bool
has_newline [] = false
has_newline (b ∷ bs) = b == newline || has_newline bs

plain_newline : (b : ℕ) → log_escape b ≡ none → (b == newline) ≡ false
unfolding log_escape
plain_newline b h = ground arith

escape_from-plain :
    (plain : Text) (count b : ℕ) (bs : Text) (o : Output)
    → log_escape b ≡ none
    → escape_from plain count (b ∷ bs) o ≡ escape_from (plain ++ b ∷ []) count bs o
unfolding escape_from
escape_from-plain plain count b bs o e = rw (e, escape_from) refl

escape_from-special :
    (plain : Text) (count b : ℕ) (bs escaped text : Text)
    → log_escape b ≡ some escaped
    → let after = (text ++ plain) ++ escaped in
      let n = count + length plain + 1 in
      escape_from plain count (b ∷ bs) (sound_output text) ≡ (
        if b == newline
        then returned (record { output = sound_output after; count = n; complete = true })
        else escape_from [] n bs (sound_output after))
unfolding escape_from
escape_from-special plain count b bs escaped text e =
    rw (e, escape_from) (rw (write_special_lem plain count escaped text) refl)

abbrev result : Text → ℕ → Bool → Escaped
result text count complete =
    returned (record { output = sound_output text; count = count; complete = complete })

result_eq :
    {s t : Text} {m n : ℕ} {a b : Bool} → s ≡ t → m ≡ n → a ≡ b → result s m a ≡ result t n b
result_eq p q r = cc

escape_all-special :
    (b : ℕ) (bs t : Text) → log_escape b ≡ some t → escape_all (b ∷ bs) ≡ t ++ escape_all bs
unfolding escape_all
escape_all-special b bs t e =
    let byte : escape_byte b ≡ t = ground arith in ap (λ x. x ++ escape_all bs) byte

escape_all-plain :
    (b : ℕ) (bs : Text) → log_escape b ≡ none → escape_all (b ∷ bs) ≡ b ∷ escape_all bs
unfolding escape_all
escape_all-plain b bs e =
    let byte : escape_byte b ≡ b ∷ [] = ground arith in ap (λ x. x ++ escape_all bs) byte

first_line-cons :
    (b : ℕ) (bs : Text) → (b == newline) ≡ false → first_line (b ∷ bs) ≡ b ∷ first_line bs
unfolding first_line
first_line-cons b bs e = rw e refl

first_line-newline : (b : ℕ) (bs : Text) → (b == newline) ≡ true → first_line (b ∷ bs) ≡ b ∷ []
unfolding first_line
first_line-newline b bs e = rw e refl

escape_from_lem :
    (plain : Text) (count : ℕ) (bs text : Text)
    → escape_from plain count bs (sound_output text)
      ≡ result
          ((text ++ plain) ++ escape_all (first_line bs))
          (count + length plain + length (first_line bs))
          (has_newline bs)
escape_from_lem plain count [] text =
    unfold escape_from escape_all first_line in
    rw (flush_lem plain text) (result_eq (sym (append-nil (text ++ plain))) (omega arith) refl)
escape_from_lem plain count (b ∷ bs) text = elim (Option-cases (log_escape b)) [
  | inl e ↦
      let n = plain_newline b e in
      escape_from-plain plain count b bs (sound_output text) e
      ∙ (escape_from_lem (plain ++ b ∷ []) count bs text
          ∙ result_eq
              (rw (first_line-cons b bs n)
                (rw (escape_all-plain b (first_line bs) e) (simp append_assoc)))
              (rw (first_line-cons b bs n) (omega (arith, length-append plain (b ∷ []))))
              (rw n refl))
  | inr (t, e) ↦ escape_from-special plain count b bs t text e ∙ elim (Bool-cases (b == newline)) [
    | inl n ↦ rw n (
        result_eq
          (rw (first_line-newline b bs n) (
            rw (escape_all-special b [] t e)
              (unfold escape_all in simp (append-nil, append_assoc))))
          (rw (first_line-newline b bs n) (omega arith)) refl)
    | inr n ↦ rw n (
        escape_from_lem [] (count + length plain + 1) bs ((text ++ plain) ++ t)
        ∙ result_eq
            (rw (first_line-cons b bs n)
              (rw (escape_all-special b (first_line bs) t e) (simp (append-nil, append_assoc))))
            (rw (first_line-cons b bs n) (omega arith)) refl)
  ]
]

-- On a writer that takes every byte, writeEscapedLine appends the escape of the first logical line
-- of its input, consumes that line with its newline and nothing after it, and reports a complete
-- line exactly when the input has a newline.
pub write_escaped_line_lem :
    (input text : Text)
    → write_escaped_line input (sound_output text)
      ≡ returned (record {
        output = sound_output (text ++ escape_all (first_line input));
        count = length (first_line input);
        complete = has_newline input;
      })
unfolding write_escaped_line
write_escaped_line_lem input text =
    escape_from_lem [] 0 input text ∙ result_eq (simp append-nil) (omega arith) refl
