-- ===== src/Card/Connection/ReadFile.antt =====
-- src/card/base/CardConnectionWorker.cpp: `readFile` against a card that serves one file.
use ausweisapp2_android_sdk.Base.{
  ℕ, zero, suc, ◌+◌, ◌*◌, ◌≤◌, ◌<◌, ◌≡◌, refl, ap, sym, ◌∙◌, inl, inr, true, none, some, List, [],
  ◌∷◌, ◌++◌, length, length-take, take_nil, ◌==◌, ◌/◌, ◌%◌, Option, take, drop, mid, leb,
  if◌then◌else◌, arith, Bool-cases,
}
use ausweisapp2_android_sdk.Status.{ok}
use ausweisapp2_android_sdk.Pace.Establish.{is_ok}
use ausweisapp2_android_sdk.Card.Builders.{FileRef, build_select, build_read_binary}
use ausweisapp2_android_sdk.Card.ResponseApdu.{
  StatusCode, value, success, end_of_file, get_data, response_apdu,
}
use ausweisapp2_android_sdk.Card.ResponseApdu.Laws.{get_data-trailer, get_return_code-response_apdu}
use ausweisapp2_android_sdk.Card.Connection.{
  Worker, Device, transmit, Answer, transmit_plain, is_answered, read_answer, read_binaries,
  read_file,
}

-- A card that selects the file and answers READ BINARY with the part of the file that the offset names, and says where
-- the file has ended before all the bytes that are asked for. `selected` says that the file is
-- selected. Offsets from 0x8000 on name another file and are left out.
pub record Serves {S K : Type 0} (d : Device S K) (file : FileRef) (selected : S → Type 0)
    (content : List ℕ) : Type 0 where
  pub selects : (s : S) → selected (d.card_transmit s (build_select file)).0
  pub accepts : (s : S) → is_answered success (d.card_transmit s (build_select file)).1 ≡ true
  pub stays :
      (s : S) (offset : ℕ)
      → selected s
      → offset < 0x8000
      → selected (d.card_transmit s (build_read_binary offset 0xff)).0
  pub replies :
      (s : S) (offset : ℕ)
      → selected s
      → offset < 0x8000
      → (d.card_transmit s (build_read_binary offset 0xff)).1 ≡ (
        ok,
        mid content offset 0xff
            ++ response_apdu
                (if leb (offset + 0xff) (length content) then success else end_of_file),
      )

take_add : {A : Type 0} (m n : ℕ) (xs : List A) → take m xs ++ take n (drop m xs) ≡ take (m + n) xs
take_add zero n xs = let e : n ≡ 0 + n = omega arith in ap (λ k. take k xs) e
take_add (suc m) n [] = take_nil n ∙ sym (take_nil (suc m + n))
take_add (suc m) n (x ∷ xs) =
    let e : suc (m + n) ≡ suc m + n = omega arith in
    ap (◌∷◌ x) (take_add m n xs) ∙ ap (λ k. take k (x ∷ xs)) e

take_all : {A : Type 0} (n : ℕ) (xs : List A) → length xs ≤ n → take n xs ≡ xs
take_all zero [] h = refl
take_all zero (x ∷ xs) h = elim h [ ]
take_all (suc n) [] h = refl
take_all (suc n) (x ∷ xs) h = ap (◌∷◌ x) (take_all n xs (omega arith))

is_answered-trailer :
    (s t : StatusCode) (chunk : List ℕ)
    → is_answered s (ok, chunk ++ response_apdu t) ≡ (value t == value s)
unfolding is_answered response_apdu is_ok
is_answered-trailer s t chunk =
    ap (λ c. value c == value s)
      ((get_data-trailer chunk (value t / 256) (value t % 256)).1 ∙ get_return_code-response_apdu t)

get_data-answer : (t : StatusCode) (chunk : List ℕ) → get_data (chunk ++ response_apdu t) ≡ chunk
unfolding response_apdu
get_data-answer t chunk = (get_data-trailer chunk (value t / 256) (value t % 256)).0

module _ {S K : Type 0} where
  read_answer-success :
      (rest : Option (Worker S K × Answer)) (w : Worker S K) (content chunk : List ℕ)
      → read_answer rest w content (ok, chunk ++ response_apdu success) ≡ rest
  unfolding read_answer is_ok value
  read_answer-success rest w content chunk =
      rw (is_answered-trailer end_of_file success chunk)
        (rw (is_answered-trailer success success chunk) refl)

  read_answer-end :
      (rest : Option (Worker S K × Answer)) (w : Worker S K) (content chunk : List ℕ)
      → read_answer rest w content (ok, chunk ++ response_apdu end_of_file)
        ≡ some (w, (ok, content ++ chunk))
  unfolding read_answer is_ok value
  read_answer-end rest w content chunk =
      rw (is_answered-trailer end_of_file end_of_file chunk)
        (rw (get_data-answer end_of_file chunk) refl)

  -- A connection without a secure channel to a card in this state.
  unfoldable pub plain : Worker S K → S → Worker S K
  plain w s = record w { card = some s; secure_messaging = none }

  module _ (d : Device S K) (file : FileRef) (selected : S → Type 0) (content : List ℕ)
      (serves : Serves d file selected content) (w : Worker S K) where
    -- One round, at an offset within the file.
    read_binaries-round :
        (fuel : ℕ) (s : S) (k : ℕ)
        → selected s
        → k ≤ length content
        → length content < 0x8000
        → let s' = (d.card_transmit s (build_read_binary k 0xff)).0 in
          read_binaries (suc fuel) d (plain w s) (take k content) ≡ (
            if leb (k + 0xff) (length content)
            then read_binaries fuel d (plain w s') (take (k + 0xff) content)
            else some (plain w s', (ok, take (k + 0xff) content)))
    unfolding read_binaries plain transmit transmit_plain
    read_binaries-round fuel s k sel fits small =
        let s' = (d.card_transmit s (build_read_binary k 0xff)).0 in
        let chunk = mid content k 0xff in
        let rest : StatusCode → Option (Worker S K × Answer) = λ t.
          read_binaries fuel d (plain w s')
            (take k content ++ get_data (chunk ++ response_apdu t)) in
        let joined : (t : StatusCode)
            → take k content ++ get_data (chunk ++ response_apdu t) ≡ take (k + 0xff) content =
          λ t. ap (λ c. take k content ++ c) (get_data-answer t chunk) ∙ take_add k 0xff content in
        rw (length-take k content fits) (
          rw (serves.replies s k sel (omega arith))
            (elim (Bool-cases (leb (k + 0xff) (length content))) [
              | inl more ↦ rw more (
                  read_answer-success (rest success) (plain w s') (take k content) chunk
                  ∙ ap (read_binaries fuel d (plain w s')) (joined success))
              | inr done ↦ rw done (
                  read_answer-end (rest end_of_file) (plain w s') (take k content) chunk
                  ∙ ap (λ c. some (plain w s', (ok, c))) (take_add k 0xff content))
            ]))

    -- The rounds from an offset within the file to its end.
    read_binaries-end :
        (fuel : ℕ) (s : S) (k : ℕ)
        → selected s
        → k ≤ length content
        → length content < 0x8000
        → length content < k + 0xff * fuel
        → (s' : S) × (read_binaries fuel d (plain w s) (take k content)
            ≡ some (plain w s', (ok, content)))
    read_binaries-end zero s k sel fits small enough = absurd (omega arith)
    read_binaries-end (suc fuel) s k sel fits small enough =
        let s' = (d.card_transmit s (build_read_binary k 0xff)).0 in
        let round = read_binaries-round fuel s k sel fits small in
        elim (Bool-cases (leb (k + 0xff) (length content))) [
          | inl more ↦
              let (s'', rest) =
                read_binaries-end fuel s' (k + 0xff) (serves.stays s k sel (omega arith))
                  (ground arith) small (omega arith) in
              (s'', (rw more at round) ∙ rest)
          | inr done ↦ (
            s',
            (rw done at round)
                ∙ ap (λ c. some (plain w s', (ok, c))) (take_all (k + 0xff) content (ground arith)),
          )
        ]

    -- Without a secure channel, on a card that selects the file, answers each READ BINARY with
    -- the part of the file at the offset, and says where the file ends before all bytes asked
    -- for: a file below 0x8000 bytes, of which a part from the start is there already, is read
    -- completely and exactly, and the loop ends within as many rounds of 255 bytes as reach past
    -- its end.
    pub read_file-serves :
        (fuel : ℕ) (s : S) (k : ℕ)
        → k ≤ length content
        → length content < 0x8000
        → length content < k + 0xff * fuel
        → (s' : S) × (read_file fuel d (plain w s) file (take k content)
            ≡ some (plain w s', (ok, content)))
    unfolding read_file plain transmit transmit_plain
    read_file-serves fuel s k fits small enough =
        let s' = (d.card_transmit s (build_select file)).0 in
        let (s'', read) = read_binaries-end fuel s' k (serves.selects s) fits small enough in
        (s'', rw (serves.accepts s) read)
