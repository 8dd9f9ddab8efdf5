-- ===== src/Sip/Headers.antt =====
-- sip/src/aipanel_sip/header_parser.py: the ViciDial headers of a raw SIP message.
pub mod Folding
mod Tests
use aipanel.Base.{
  ℕ, ◌≡◌, ◌+◌, String, Text, codes, Bool, true, false, ◌&&◌, ◌||◌, List, [], ◌∷◌, ◌++◌, Option,
  none, some, map, nat_eq, leb, is_empty, if◌then◌else◌, string_Key,
}
use aipanel.Base.Dict
use aipanel.Base.Dict.{Dict}
use aipanel.Base.Texts.{strip, split_on, starts_with, same_text}

abbrev pub colon : ℕ
colon = b':'

-- `str.lower` of one character. The others that it changes do not become a letter of `header_map`.
abbrev lower_code : ℕ → ℕ
lower_code c = if leb b'A' c && leb c b'Z' then c + 32 else c

abbrev lower : Text → Text
lower = map lower_code

-- `_HEADER_MAP`.
abbrev header_map : List (Text × String)
header_map =
    (codes "x-vicidial-leadid", "vici_lead_id")
    ∷ (codes "x-vicidial-uniqueid", "vici_uniqueid")
    ∷ (codes "x-vicidial-campaign", "vici_campaign")
    ∷ (codes "x-vicidial-phone", "vici_phone")
    ∷ (codes "p-asserted-identity", "p_asserted_identity")
    ∷ []

canonical_in : List (Text × String) → Text → Option String
canonical_in [] name = none
canonical_in ((known, canonical) ∷ others) name =
    let rest = canonical_in others name in if same_text known name then some canonical else rest

-- `_HEADER_MAP.get(name.lower())`.
unfoldable pub canonical_of : Text → Option String
unfolding canonical_in
canonical_of name = canonical_in header_map (lower name)

-- The variables of `parse_headers`: the result, and the header that continuation lines may extend.
pub record Parse : Type 0 where
  pub out : Dict String Text
  pub pending : Option (Text × Text)

pub put_known : Option String → Text → Dict String Text → Dict String Text
put_known none value out = out
put_known (some canonical) value out = Dict.put canonical value out

pub flush_pending : Option (Text × Text) → Dict String Text → Dict String Text
unfolding put_known
flush_pending none out = out
flush_pending (some (name, value)) out = put_known (canonical_of name) (strip value) out

-- `_flush`.
pub flush : Parse → Parse
flush p = record { out = flush_pending p.pending p.out; pending = none }

abbrev pub methods : List Text
methods =
    codes "INVITE "
    ∷ codes "SIP/2.0 "
    ∷ codes "ACK "
    ∷ codes "BYE "
    ∷ codes "CANCEL "
    ∷ codes "OPTIONS "
    ∷ []

abbrev pub starts_with_any : List Text → Text → Bool
starts_with_any [] line = false
starts_with_any (m ∷ ms) line = starts_with m line || starts_with_any ms line

abbrev pub is_blank : ℕ → Bool
is_blank c = nat_eq c b' ' || nat_eq c 9

abbrev fold_into : Text → Option (Text × Text) → Option (Text × Text)
fold_into line none = none
fold_into line (some (name, value)) = some (name, value ++ codes " " ++ strip line)

-- `line.partition(":")`, with none where there is no colon.
pub partition : Text → Option (Text × Text)
partition [] = none
partition (c ∷ t) =
    let rest = partition t in
    if nat_eq c colon
    then some ([], t)
    else elim rest [ none ↦ none | some (name, value) ↦ some (c ∷ name, value) ]

abbrev pub pending_of : Option (Text × Text) → Option (Text × Text)
pending_of none = none
pending_of (some (name, value)) = some (strip name, value)

-- A line that is not empty: its first character, and the others.
pub on_line : ℕ → Text → Parse → Parse
on_line c line p =
    if starts_with_any methods (c ∷ line)
    then p
    else if is_blank c
    then record p { pending = fold_into (c ∷ line) p.pending }
    else record (flush p) { pending = pending_of (partition (c ∷ line)) }

-- The loop over the lines: it ends at the first that is empty.
pub parse_lines : List Text → Parse → Dict String Text
parse_lines [] p = (flush p).out
parse_lines ([] ∷ lines) p = (flush p).out
parse_lines ((c ∷ line) ∷ lines) p = parse_lines lines (on_line c line p)

abbrev starts_lf : Text → Bool
starts_lf [] = false
starts_lf (c ∷ t) = nat_eq c 10

-- `raw_msg.replace("\r\n", "\n")`.
pub replace_crlf : Text → Text
replace_crlf [] = []
replace_crlf (c ∷ t) =
    let rest = replace_crlf t in if nat_eq c 13 && starts_lf t then rest else c ∷ rest

abbrev pub no_headers : Parse
no_headers = record { out = []; pending = none }

unfoldable pub parse_headers : Text → Dict String Text
unfolding replace_crlf parse_lines
parse_headers raw_msg =
    if is_empty raw_msg then [] else parse_lines (split_on 10 (replace_crlf raw_msg)) no_headers
