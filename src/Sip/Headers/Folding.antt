-- ===== src/Sip/Headers/Folding.antt =====
-- What `parse_headers` reads off a message that is written header by header.
use aipanel.Base.{
  ℕ, ◌≡◌, refl, ap, ◌∙◌, String, Text, false, List, [], ◌∷◌, ◌++◌, some, map, nat_eq, if-false,
  string_Key, arith, All,
}
use aipanel.Base.Dict.{Dict}
use aipanel.Base.Texts.{strip}
use aipanel.Sip.Headers.{
  colon, canonical_of, Parse, put_known, flush_pending, flush, methods, starts_with_any, is_blank,
  partition, pending_of, on_line, parse_lines,
}

-- A header: the first character of its name, the rest of the name, and the value.
pub record Header : Type 0 where
  pub first : ℕ
  pub rest : Text
  pub value : Text

abbrev pub name : Header → Text
name h = h.first ∷ h.rest

abbrev pub line_of : Header → Text
line_of h = name h ++ colon ∷ h.value

-- A name that is no folded line, no request line, and has neither a colon nor blanks around it.
pub record IsPlain (h : Header) : Type 0 where
  pub starts : is_blank h.first ≡ false
  pub no_method : starts_with_any methods (line_of h) ≡ false
  pub no_colon : All (λ c. nat_eq c colon ≡ false) (name h)
  pub trimmed : strip (name h) ≡ name h

-- What is kept of the headers: one after another, the known ones under their field's name.
abbrev pub store : List Header → Dict String Text → Dict String Text
store [] out = out
store (h ∷ hs) out = store hs (put_known (canonical_of (name h)) (strip h.value) out)

partition-colon :
    (n v : Text) → All (λ c. nat_eq c colon ≡ false) n → partition (n ++ colon ∷ v) ≡ some (n, v)
unfolding partition
partition-colon [] v h = ground arith
partition-colon (c ∷ n) v h = ground (arith, partition-colon n v h.1)

on_line-header :
    (h : Header) (p : Parse)
    → IsPlain h
    → on_line h.first (h.rest ++ colon ∷ h.value) p
      ≡ record { out = flush_pending p.pending p.out; pending = some (name h, h.value) }
unfolding on_line flush
on_line-header h p plain =
    if-false {A = Parse} _ _ _ plain.no_method
    ∙ if-false {A = Parse} _ _ _ plain.starts
    ∙ ap (λ o. record { out = flush_pending p.pending p.out; pending = pending_of o })
        (partition-colon (name h) h.value plain.no_colon)
    ∙ ap (λ n. record { out = flush_pending p.pending p.out; pending = some (n, h.value) })
        plain.trimmed

-- A message written header by header, with an empty line after them: each known header is kept under
-- its field's name, whatever the case of its letters, with its value trimmed; of a header that
-- repeats, the last one; unknown headers and all that follows the empty line leave no trace.
pub parse_lines-headers :
    (hs : List Header) (body : List Text) (p : Parse)
    → All IsPlain hs
    → parse_lines (map line_of hs ++ [] ∷ body) p ≡ store hs (flush_pending p.pending p.out)
unfolding parse_lines flush flush_pending
parse_lines-headers [] body p plain = refl
parse_lines-headers (h ∷ hs) body p plain =
    ap (parse_lines (map line_of hs ++ [] ∷ body)) (on_line-header h p plain.0)
    ∙ parse_lines-headers hs body
        (record { out = flush_pending p.pending p.out; pending = some (name h, h.value) }) plain.1
