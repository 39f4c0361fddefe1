-- ===== src/Pace/Reader/Selection.antt =====
-- The reader that StateSelectReader.cpp takes.
use ausweisapp2_android_sdk.Base.{
  Bool-cases, ◌≡◌, refl, sym, ap, ◌∙◌, inl, inr, Bool, true, false, not, ◌&&◌, Option, none, some,
  List, [], ◌∷◌, ◌++◌, arith,
}
use ausweisapp2_android_sdk.Pace.Context.{Context}
use ausweisapp2_android_sdk.Pace.States.{fire_continue, wait, Reaction}
use ausweisapp2_android_sdk.Pace.Reader.{
  ReaderInfo, sufficient_apdu_length, is_offered, scan, on_reader_info_changed,
}

unfoldable pub is_selectable : ReaderInfo → Bool
unfolding is_offered sufficient_apdu_length
is_selectable i = is_offered i && sufficient_apdu_length i

unfoldable pub none_selectable : List ReaderInfo → Bool
unfolding is_selectable
none_selectable [] = true
none_selectable (i ∷ readers) = not (is_selectable i) && none_selectable readers

-- The first selectable reader.
pub record IsFirst (i : ReaderInfo) (readers : List ReaderInfo) : Type 0 where
  pub before : List ReaderInfo
  pub behind : List ReaderInfo
  pub split : readers ≡ before ++ i ∷ behind
  pub skipped : none_selectable before ≡ true
  pub selectable : is_selectable i ≡ true

scan-take :
    (r : ReaderInfo) (readers : List ReaderInfo)
    → is_selectable r ≡ true
    → (scan (r ∷ readers)).0 ≡ some r
unfolding scan is_selectable
scan-take r readers h = ground arith

scan-skip :
    (r : ReaderInfo) (readers : List ReaderInfo)
    → is_selectable r ≡ false
    → (scan (r ∷ readers)).0 ≡ (scan readers).0
unfolding scan is_selectable
scan-skip r readers h = ground arith

scan-some :
    (readers : List ReaderInfo) (i : ReaderInfo) → (scan readers).0 ≡ some i → IsFirst i readers
unfolding none_selectable
scan-some [] i h = absurd (unfold scan in ground arith)
scan-some (r ∷ readers) i h = elim (Bool-cases (is_selectable r)) [
  | inl e ↦
      (let same : r ≡ i =
          ap (λ (o : Option ReaderInfo). elim o as (λ _. ReaderInfo) [ none ↦ r | some x ↦ x ])
            (sym (scan-take r readers e) ∙ h) in
        record {
          before = [];
          behind = readers;
          split = ap (λ x. x ∷ readers) same;
          skipped = refl;
          selectable = rw (← same) e;
        })
  | inr e ↦
      (let rest = scan-some readers i (sym (scan-skip r readers e) ∙ h) in
        record {
          before = r ∷ rest.before;
          behind = rest.behind;
          split = ap (λ l. r ∷ l) rest.split;
          skipped = rw (e, rest.skipped) refl;
          selectable = rest.selectable;
        })
]

scan-none : (readers : List ReaderInfo) → (scan readers).0 ≡ none → none_selectable readers ≡ true
unfolding scan none_selectable is_selectable
scan-none [] h = refl
scan-none (r ∷ readers) h = ground (arith, scan-none readers)

unfoldable pub Answered : List ReaderInfo → Reaction → Type 0
Answered readers (c, fire_continue) =
    (i : ReaderInfo) × IsFirst i readers × (c.reader_name ≡ i.name)
Answered readers (c, signal) = (signal ≡ wait) × (none_selectable readers ≡ true)

answer-Answered :
    (readers : List ReaderInfo) (c : Context) (o : Option ReaderInfo)
    → (scan readers).0 ≡ o
    → Answered readers (elim o as (λ _. Reaction) [
      | none ↦ (c, wait)
      | some i ↦ (record c { reader_name = i.name }, fire_continue)
    ])
unfolding Answered
answer-Answered readers c none e = (refl, scan-none readers e)
answer-Answered readers c (some i) e = (i, scan-some readers i e, refl)

-- StateSelectReader goes on with the name of the first selectable reader, and waits if there is
-- none.
pub on_reader_info_changed_lem :
    (readers : List ReaderInfo) (c : Context) → Answered readers (on_reader_info_changed readers c)
unfolding on_reader_info_changed
on_reader_info_changed_lem readers c =
    answer-Answered readers (record c { insufficient_apdu_length = (scan readers).1 })
      (scan readers).0 refl
