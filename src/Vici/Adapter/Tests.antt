-- ===== src/Vici/Adapter/Tests.antt =====
-- The adapter on concrete answers.
use aipanel.Base.{◌≡◌, refl, Text, codes, List, [], ◌∷◌, none, some, true, false, arith}
use aipanel.Base.Texts.{strip, split_on}
use aipanel.Vici.Adapter.{is_response_session_expired}
use aipanel.Vici.Adapter.Parse.{join_with, parse_call_info_response, parse_call_info-join}

logged_out_page : is_response_session_expired (codes "ERROR: NOT LOGGED-IN") 200 ≡ true
unfolding is_response_session_expired
logged_out_page = refl

alive_page : is_response_session_expired (codes "OK8600099") 200 ≡ false
unfolding is_response_session_expired
alive_page = refl

trimmed : strip (codes " a b\n") ≡ codes "a b"
unfolding strip
trimmed = refl

split_bars : split_on b'|' (codes "a||b") ≡ codes "a" ∷ [] ∷ codes "b" ∷ []
unfolding split_on
split_bars = refl

abbrev first_fields : Text
first_fields = codes "INCALL"

abbrev other_fields : List Text
other_fields =
    codes "1"
    ∷ codes "2"
    ∷ codes "3"
    ∷ codes "4"
    ∷ codes "5"
    ∷ codes "6"
    ∷ codes "7"
    ∷ codes "8"
    ∷ codes "9"
    ∷ codes "10"
    ∷ codes "4711"
    ∷ codes "17.5"
    ∷ []
    ∷ codes "9"
    ∷ codes "555"
    ∷ []

fields_trimmed :
    strip (join_with b'|' first_fields other_fields) ≡ join_with b'|' first_fields other_fields
unfolding strip
fields_trimmed = refl

parse_call_info-join_example :
    let call = parse_call_info_response (join_with b'|' first_fields other_fields) in
    (call.lead_id ≡ some (codes "4711"))
    × (call.uniqueid ≡ some (codes "17.5"))
    × (call.campaign_id ≡ none)
    × (call.list_id ≡ some (codes "9"))
    × (call.phone_number ≡ some (codes "555"))
parse_call_info-join_example =
    parse_call_info-join first_fields other_fields (ground arith) (ground arith) fields_trimmed refl
