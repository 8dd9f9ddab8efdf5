-- ===== src/Sip/Bridge/Heard.antt =====
-- The bridge after frames of the worker that do not end the reader thread.
use aipanel.Base.{
  ℕ, zero, suc, ◌+◌, ◌-◌, ◌≤◌, ◌≡◌, refl, sym, ap, ◌∙◌, append-nil, not, ◌&&◌, true, false, List,
  [], ◌∷◌, ◌++◌, length, drop, length-drop, length-append, append_assoc, is_empty, nat_eq, leb, ltb,
  if-false, if◌then◌else◌, arith, Bool-cases, inl, inr,
}
use aipanel.Sip.Frame.Wire.{Bytes}
use aipanel.Sip.Frame.{Frame}
use aipanel.Sip.Bridge.{Bridge, make_room, deque_append, count_drop}

-- The payloads of a type, without the empty ones.
abbrev pub payloads : ℕ → List Frame → List Bytes
payloads t [] = []
payloads t ((u, p) ∷ fs) =
    if nat_eq u t && not (is_empty p) then p ∷ payloads t fs else payloads t fs

-- The newest 50.
abbrev pub newest : List Bytes → List Bytes
newest q = drop (length q - 50) q

-- What frames that do not end the loop leave, and how often it counts a hangup then.
abbrev pub heard : List Frame → ℕ → Bridge → Bridge
heard fs n b = record b {
  outbound = newest (b.outbound ++ payloads 0x02 fs);
  dropped = b.dropped + (length b.outbound + length (payloads 0x02 fs) - 50);
  dtmf = b.dtmf ++ payloads 0x12 fs;
  hangups = b.hangups + n;
}

pub length-newest : (q : List Bytes) → length (newest q) ≡ length q - (length q - 50)
length-newest q = length-drop (length q - 50) q

drop-nil : (n : ℕ) → drop {A = Bytes} n [] ≡ []
drop-nil zero = refl
drop-nil (suc n) = refl

drop-drop : (m k : ℕ) (q : List Bytes) → drop m (drop k q) ≡ drop (k + m) q
drop-drop m zero q = ap (λ n. drop n q) (omega arith)
drop-drop m (suc k) [] = drop-nil m ∙ sym (drop-nil (suc k + m))
drop-drop m (suc k) (x ∷ q) =
    let sizes : suc (k + m) ≡ suc k + m = omega arith in
    drop-drop m k q ∙ ap (λ n. drop n (x ∷ q)) sizes

drop-before : (k : ℕ) (xs ys : List Bytes) → k ≤ length xs → drop k xs ++ ys ≡ drop k (xs ++ ys)
drop-before zero xs ys le = refl
drop-before (suc k) [] ys le = absurd (omega (arith, le))
drop-before (suc k) (x ∷ xs) ys le = drop-before k xs ys (omega arith)

newest-newest : (xs ys : List Bytes) → newest (newest xs ++ ys) ≡ newest (xs ++ ys)
newest-newest xs ys =
    let k = length xs - 50 in
    let m = length (newest xs ++ ys) - 50 in
    let size : k + m ≡ length (xs ++ ys) - 50 =
      omega (arith, length-append (newest xs) ys, length-append xs ys, length-newest xs) in
    ap (drop m) (drop-before k xs ys (omega arith))
    ∙ drop-drop m k (xs ++ ys)
    ∙ ap (λ n. drop n (xs ++ ys)) size

payloads-more :
    (t : ℕ) (f : Frame) (fs : List Frame)
    → payloads t (f ∷ fs) ≡ payloads t (f ∷ []) ++ payloads t fs
payloads-more t (u, p) fs = elim (Bool-cases (nat_eq u t && not (is_empty p))) [
  | inl this ↦ rw this refl
  | inr other ↦ rw other refl
]

-- A frame that is put behind those that wait.
pub deque_append-newest :
    (q : List Bytes) (p : Bytes)
    → length q ≤ 50
    → deque_append (make_room q) p ≡ newest (q ++ p ∷ [])
deque_append-newest q p le =
    let more = length-append q (p ∷ []) in
    let fewer = length-append (drop 1 q) (p ∷ []) in
    let one = length-drop 1 q in
    let rest-one : leb 50 (length q) ≡ true → 1 ≡ length (q ++ p ∷ []) - 50 =
      λ full. ground (arith, full, more) in
    let rest-none : leb 50 (length q) ≡ false → 0 ≡ length (q ++ p ∷ []) - 50 =
      λ room. ground (arith, room, more) in
    elim (Bool-cases (leb 50 (length q))) [
      | inl full ↦ rw full (
          if-false (ltb 50 (length (drop 1 q ++ p ∷ []))) _ _ (ground (arith, full, fewer, one))
          ∙ drop-before 1 q (p ∷ []) (ground (arith, full))
          ∙ ap (λ n. drop n (q ++ p ∷ [])) (rest-one full))
      | inr room ↦ rw room (
          if-false (ltb 50 (length (q ++ p ∷ []))) _ _ (ground (arith, room, more))
          ∙ ap (λ n. drop n (q ++ p ∷ [])) (rest-none room))
    ]

pub count_drop_lem :
    (q : List Bytes) (dropped : ℕ)
    → length q ≤ 50
    → count_drop q dropped ≡ dropped + (length q + 1 - 50)
count_drop_lem q dropped le = ground arith

abbrev of_parts : Bridge → List Bytes → ℕ → List Bytes → ℕ → Bridge
of_parts b outbound dropped dtmf hangups = record b {
  outbound = outbound;
  dropped = dropped;
  dtmf = dtmf;
  hangups = hangups;
}

pub parts_eq :
    (b : Bridge) {o o' : List Bytes} {d d' : ℕ} {t t' : List Bytes} {h h' : ℕ}
    → o ≡ o'
    → d ≡ d'
    → t ≡ t'
    → h ≡ h'
    → of_parts b o d t h ≡ of_parts b o' d' t' h'
parts_eq b e f g i = cc

pub newest-fits : (q : List Bytes) → length q ≤ 50 → newest q ≡ q
newest-fits q le = let fits : length q - 50 ≡ 0 = omega (arith, le) in ap (λ n. drop n q) fits

pub heard-nil :
    (b : Bridge) (n : ℕ)
    → length b.outbound ≤ 50
    → heard [] n b ≡ record b { hangups = b.hangups + n }
heard-nil b n le =
    parts_eq b (ap newest (append-nil b.outbound) ∙ newest-fits b.outbound le) (omega (arith, le))
      (append-nil b.dtmf) refl

pub heard-nothing : (b : Bridge) → length b.outbound ≤ 50 → heard [] 0 b ≡ b
heard-nothing b le =
    let same : b.hangups + 0 ≡ b.hangups = omega arith in
    heard-nil b 0 le ∙ ap (of_parts b b.outbound b.dropped b.dtmf) same

pub heard-more :
    (f : Frame) (fs : List Frame) (n : ℕ) (b : Bridge)
    → length b.outbound ≤ 50
    → heard fs n (heard (f ∷ []) 0 b) ≡ heard (f ∷ fs) n b
heard-more f fs n b le =
    let one = payloads 0x02 (f ∷ []) in
    let rest = payloads 0x02 fs in
    let all = payloads-more 0x02 f fs in
    let keys = payloads-more 0x12 f fs in
    let kept = length-newest (b.outbound ++ one) in
    let both = length-append b.outbound one in
    let sum = length-append one rest in
    parts_eq b
      (newest-newest (b.outbound ++ one) rest
        ∙ ap newest (append_assoc b.outbound one rest ∙ ap (λ q. b.outbound ++ q) (sym all)))
      (omega (arith, le, kept, both, sum, ap length all))
      (append_assoc b.dtmf (payloads 0x12 (f ∷ [])) (payloads 0x12 fs)
        ∙ ap (λ q. b.dtmf ++ q) (sym keys))
      (omega arith)
