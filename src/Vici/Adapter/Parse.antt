-- ===== src/Vici/Adapter/Parse.antt =====
-- session-mgr/src/aipanel_vici/adapters/v2_14.py: what the adapter reads in ViciDial's answers.
use aipanel.Base.{
  ℕ, ◌≡◌, refl, ap, ◌∙◌, Text, codes, false, List, [], ◌∷◌, ◌++◌, Option, none, some, is_empty,
  nat_eq, if◌then◌else◌, if-false, arith, All,
}
use aipanel.Base.Texts.{strip, split_on, split_first, get_elem?}
use aipanel.Vici.Model.{CallInfo, LeadData}

-- `fields[i] if i < len(fields) and fields[i] else None`, and with "" for None.
abbrev filled : Option Text → Option Text
filled none = none
filled (some []) = none
filled (some (c ∷ t)) = some (c ∷ t)

abbrev pub or_empty : Option Text → Text
or_empty none = []
or_empty (some t) = t

abbrev no_call : CallInfo
no_call = record {
  lead_id = none;
  uniqueid = none;
  campaign_id = none;
  list_id = none;
  phone_number = none;
}

call_info_of : List Text → CallInfo
call_info_of fields = record {
  lead_id = filled (get_elem? fields 11);
  uniqueid = filled (get_elem? fields 12);
  campaign_id = filled (get_elem? fields 13);
  list_id = filled (get_elem? fields 14);
  phone_number = filled (get_elem? fields 15);
}

pub parse_call_info_response : Text → CallInfo
unfolding call_info_of
parse_call_info_response body =
    if is_empty (strip body) then no_call else call_info_of (split_on b'|' (strip body))

-- `" ".join(p for p in parts if p)`.
abbrev join_filled : List Text → Text
join_filled [] = []
join_filled ([] ∷ parts) = join_filled parts
join_filled ((c ∷ t) ∷ parts) =
    let rest = join_filled parts in if is_empty rest then c ∷ t else (c ∷ t) ++ codes " " ++ rest

abbrev or_default : Text → Text → Text
or_default [] d = d
or_default (c ∷ t) d = c ∷ t

lead_data_of : List Text → Text → LeadData
lead_data_of parts lead_id = record {
  lead_id = or_default (or_empty (get_elem? parts 0)) lead_id;
  phone_number = or_empty (get_elem? parts 8);
  first_name = or_empty (get_elem? parts 10);
  last_name = or_empty (get_elem? parts 12);
  address = join_filled (
      or_empty (get_elem? parts 13)
      ∷ or_empty (get_elem? parts 14)
      ∷ or_empty (get_elem? parts 15)
      ∷ []);
  city = or_empty (get_elem? parts 16);
  state = or_empty (get_elem? parts 17);
  postal_code = or_empty (get_elem? parts 19);
  email = or_empty (get_elem? parts 24);
}

abbrev no_lead : Text → LeadData
no_lead lead_id = record {
  lead_id = lead_id;
  phone_number = [];
  first_name = [];
  last_name = [];
  address = [];
  city = [];
  state = [];
  postal_code = [];
  email = [];
}

unfoldable pub parse_lead_response : Text → Text → LeadData
unfolding lead_data_of
parse_lead_response body lead_id =
    if is_empty body then no_lead lead_id else lead_data_of (split_on 9 (strip body)) lead_id

-- A record as ViciDial writes it: the fields with a separator between them.
abbrev pub join_with : ℕ → Text → List Text → Text
join_with sep part [] = part
join_with sep part (next ∷ parts) = part ++ sep ∷ join_with sep next parts

-- A text without the separator.
abbrev Lacks : ℕ → Text → Type 0
Lacks sep = All (λ c. nat_eq c sep ≡ false)

split_first-part : (sep : ℕ) (part : Text) → Lacks sep part → split_first sep part ≡ (part, [])
unfolding split_first
split_first-part sep [] h = refl
split_first-part sep (c ∷ part) h = ground (arith, split_first-part sep part h.1)

split_first-sep :
    (sep : ℕ) (part rest : Text)
    → Lacks sep part
    → split_first sep (part ++ sep ∷ rest) ≡ (part, split_on sep rest)
unfolding split_first split_on
split_first-sep sep [] rest h = ground arith
split_first-sep sep (c ∷ part) rest h = ground (arith, split_first-sep sep part rest h.1)

-- Splitting gives back the fields of a record that was written with their separator.
split-join :
    (sep : ℕ) (part : Text) (parts : List Text)
    → Lacks sep part
    → All (Lacks sep) parts
    → split_on sep (join_with sep part parts) ≡ part ∷ parts
unfolding split_on
split-join sep part [] h hs = ap (λ r. r.0 ∷ r.1) (split_first-part sep part h)
split-join sep part (next ∷ parts) h hs =
    ap (λ r. r.0 ∷ r.1) (split_first-sep sep part (join_with sep next parts) h)
    ∙ ap (λ ps. part ∷ ps) (split-join sep next parts hs.0 hs.1)

-- An answer to `user_status` that is written as fields without bars, with bars between them, and is
-- neither empty nor with blanks around it: the call is read off the twelfth field and the four
-- after it, where a field that is empty or missing is None.
pub parse_call_info-join :
    (part : Text) (parts : List Text)
    → Lacks b'|' part
    → All (Lacks b'|') parts
    → strip (join_with b'|' part parts) ≡ join_with b'|' part parts
    → is_empty (join_with b'|' part parts) ≡ false
    → let call = parse_call_info_response (join_with b'|' part parts) in
      let fields = part ∷ parts in
      (call.lead_id ≡ filled (get_elem? fields 11))
      × (call.uniqueid ≡ filled (get_elem? fields 12))
      × (call.campaign_id ≡ filled (get_elem? fields 13))
      × (call.list_id ≡ filled (get_elem? fields 14))
      × (call.phone_number ≡ filled (get_elem? fields 15))
unfolding parse_call_info_response
parse_call_info-join part parts h hs trimmed filled_in =
    let body = join_with b'|' part parts in
    let read : parse_call_info_response body ≡ call_info_of (part ∷ parts) =
      if-false (is_empty (strip body)) _ _ (ap is_empty trimmed ∙ filled_in)
      ∙ ap (λ b. call_info_of (split_on b'|' b)) trimmed
      ∙ ap call_info_of (split-join b'|' part parts h hs) in
    (
      ap (λ c. c.lead_id) read,
      ap (λ c. c.uniqueid) read,
      ap (λ c. c.campaign_id) read,
      ap (λ c. c.list_id) read,
      ap (λ c. c.phone_number) read,
    )
