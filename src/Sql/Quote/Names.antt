-- ===== src/Sql/Quote/Names.antt =====
-- quotename.go: a reader of delimited names and literals, written as T-SQL reads them, gets back
-- what was quoted, whatever follows.
use mssql_k8s_operator.Prelude.{
  append-nil, nat_beq_iff, ℕ, ◌≡◌, ◌≢◌, ◌∙◌, ap, [], ◌∷◌, ◌++◌, Option, none, some, arith, ◌==◌,
  nat_eq, if◌then◌else◌, append_assoc, Bool-cases, inl, inr,
}
use mssql_k8s_operator.Sql.Quote.{Text, replace_all, quote_name, quote_string}

-- A delimited text ends at the first delimiter that is not doubled.
unfoldable pub read_until : ℕ → Text → Text → Option (Text × Text)
read_until q acc [] = none
read_until q acc (c ∷ []) = if c == q then some (acc, []) else none
read_until q acc (c ∷ d ∷ s) =
    let inside = read_until q (acc ++ c ∷ []) s in
    let plain = read_until q (acc ++ c ∷ []) (d ∷ s) in
    if c == q then (if d == q then inside else some (acc, d ∷ s)) else plain

unfoldable pub read_name : Text → Option (Text × Text)
read_name [] = none
read_name (c ∷ s) = if c == b'[' then read_until b']' [] s else none

unfoldable pub read_literal : Text → Option (Text × Text)
read_literal (n ∷ q ∷ s) =
    if n == b'N' then (if q == b'\'' then read_until b'\'' [] s else none) else none
read_literal _ = none

-- `s` does not begin with `q`
abbrev pub NoHead : ℕ → Text → Type 0
NoHead q [] = Unit
NoHead q (c ∷ s) = c ≢ q

read_until-end :
    (q : ℕ) (acc rest : Text) → NoHead q rest → read_until q acc (q ∷ rest) ≡ some (acc, rest)
unfolding read_until
read_until-end q acc [] h = ground arith
read_until-end q acc (c ∷ rest) h = ground arith

read_until-double :
    (q : ℕ) (acc s : Text) → read_until q acc (q ∷ q ∷ s) ≡ read_until q (acc ++ q ∷ []) s
unfolding read_until
read_until-double q acc s = ground arith

read_until-plain :
    (q c : ℕ) (acc s : Text) → c ≢ q → read_until q acc (c ∷ s) ≡ read_until q (acc ++ c ∷ []) s
unfolding read_until
read_until-plain q c acc [] h = ground arith
read_until-plain q c acc (d ∷ s) h = ground arith

-- What stands for one character of the text.
read_until-step :
    (q c : ℕ) (acc s : Text)
    → read_until q acc ((if c == q then q ∷ q ∷ [] else c ∷ []) ++ s)
      ≡ read_until q (acc ++ c ∷ []) s
read_until-step q c acc s = elim (Bool-cases (c == q)) [
  | inl e ↦ rw (e, (nat_beq_iff c q).0 e) (read_until-double q acc s)
  | inr e ↦ rw e (read_until-plain q c acc s (ground arith))
]

-- A quoted text that follows what was read so far.
read_until-quoted :
    (q : ℕ) (acc name rest : Text)
    → NoHead q rest
    → read_until q acc (replace_all q (q ∷ q ∷ []) name ++ q ∷ rest) ≡ some (acc ++ name, rest)
unfolding replace_all
read_until-quoted q acc [] rest h = rw append-nil (read_until-end q acc rest h)
read_until-quoted q acc (c ∷ name) rest h =
    rw (append_assoc, read_until-step)
      (read_until-quoted q (acc ++ c ∷ []) name rest h
        ∙ ap (λ t. some (t, rest)) (append_assoc acc (c ∷ []) name))

-- Whatever text follows a quoted identifier, unless it begins with a closing bracket, a reader of
-- bracketed identifiers stops where the quoting ended and has the identifier that was quoted: no
-- name breaks out of its brackets.
pub read_name-quote_name :
    (name rest : Text) → NoHead b']' rest → read_name (quote_name name ++ rest) ≡ some (name, rest)
unfolding read_name quote_name
read_name-quote_name name rest h = rw append_assoc (read_until-quoted b']' [] name rest h)

-- The same for string literals: the reader of an N'…' literal gets back the value, whatever
-- follows, unless that begins with a quote.
pub read_literal-quote_string :
    (value rest : Text)
    → NoHead b'\'' rest
    → read_literal (quote_string value ++ rest) ≡ some (value, rest)
unfolding read_literal quote_string
read_literal-quote_string value rest h = rw append_assoc (read_until-quoted b'\'' [] value rest h)
