-- ===== src/Sip/Headers/Tests.antt =====
-- The header parser on concrete messages.
use aipanel.Base.{◌≡◌, refl, codes, [], ◌∷◌, none, arith}
use aipanel.Base.Dict
use aipanel.Base.Dict.{Dict}
use aipanel.Base.Texts.{strip, split_on}
use aipanel.Sip.Headers.{
  canonical_of, no_headers, parse_headers, parse_lines, replace_crlf, flush_pending, flush, on_line,
  partition, put_known,
}
use aipanel.Sip.Headers.Folding.{Header, IsPlain, line_of, store, parse_lines-headers}

invite :
    parse_headers (
      codes
        "INVITE sip:8001 SIP/2.0\r\nX-VICIdial-LeadId: 4711\r\nTo: x\r\n y\r\nX-Vicidial-Phone: 5\r\n 6\r\n\r\nP-Asserted-Identity: z")
    ≡ ("vici_lead_id", codes "4711") ∷ ("vici_phone", codes "5 6") ∷ []
unfolding parse_headers replace_crlf split_on parse_lines on_line flush flush_pending put_known
    canonical_of partition strip Dict.put
invite = refl

abbrev lead : Header
lead = record { first = b'X'; rest = codes "-VICIdial-LeadId"; value = codes " 4711" }

abbrev other : Header
other = record { first = b'T'; rest = codes "o"; value = codes " x" }

lead-IsPlain : IsPlain lead
unfolding strip
lead-IsPlain = record { starts = refl; no_method = refl; no_colon = ground arith; trimmed = refl }

other-IsPlain : IsPlain other
unfolding strip
other-IsPlain = record { starts = refl; no_method = refl; no_colon = ground arith; trimmed = refl }

parse_lines-headers_example :
    parse_lines (line_of lead ∷ line_of other ∷ [] ∷ codes "v=0" ∷ []) no_headers
    ≡ store (lead ∷ other ∷ []) (flush_pending none [])
parse_lines-headers_example =
    parse_lines-headers (lead ∷ other ∷ []) (codes "v=0" ∷ []) no_headers
      (lead-IsPlain, (other-IsPlain, tt))
