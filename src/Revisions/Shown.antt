-- ===== src/Revisions/Shown.antt =====
-- The head that windows show at a time, and the head that was seen last by then.
use queueboard_core.Prelude.{
  ℕ, ◌≡◌, ◌≤◌, refl, sym, ap, ◌∙◌, true, false, Option, none, List, [], ◌∷◌, ltb, leb, leb_iff, All,
  if◌then◌else◌, keep, is_empty, Bool-cases, inl, inr, arith,
}
use queueboard_core.Prelude.Text.{Text, text_eq}
use queueboard_core.Prelude.Sorting.{Ordered}
use queueboard_core.Revisions.Windows.{Window}
use queueboard_core.Revisions.Heads.{Head, seen_before, clamp_heads, windows_of_heads, windows_from}

abbrev pub pre_of : ℕ → List Head → List Head
pre_of start heads = keep (λ h. ltb h.ts start) heads

abbrev pub post_of : ℕ → List Head → List Head
post_of start heads = keep (λ h. leb start h.ts) heads

-- The head of the last window that has started by a time; `sha` if there is none.
unfoldable pub shown_at : ℕ → Text → List Window → Text
shown_at t sha [] = sha
shown_at t sha (w ∷ ws) = shown_at t (if leb w.from_ts t then w.sha else sha) ws

-- The last head that was seen by a time; `sha` if there is none.
unfoldable pub seen_at : ℕ → Text → List Head → Text
seen_at t sha [] = sha
seen_at t sha (h ∷ heads) = seen_at t (if leb h.ts t then h.sha else sha) heads

-- The first head of the list; `sha` if there is none.
abbrev pub first_head : Text → List Head → Text
first_head sha [] = sha
first_head sha (h ∷ heads) = h.sha

pub last_head : Text → List Head → Text
last_head sha [] = sha
last_head sha (h ∷ heads) = last_head h.sha heads

pub shown_at-windows_from :
    (end : Option ℕ) (t from_ts : ℕ) (d sha : Text) (heads : List Head)
    → shown_at t d (windows_from end from_ts sha heads)
      ≡ seen_at t (if leb from_ts t then sha else d) heads
unfolding shown_at windows_from seen_at
shown_at-windows_from end t from_ts d sha [] = refl
shown_at-windows_from end t from_ts d sha (h ∷ heads) =
    shown_at-windows_from end t h.ts (if leb from_ts t then sha else d) h.sha heads

none_before :
    (start t : ℕ) (heads : List Head)
    → start ≤ t
    → All (λ h. leb t h.ts ≡ true) heads
    → pre_of start heads ≡ []
unfolding keep
none_before start t [] le a = refl
none_before start t (h ∷ heads) le a =
    let p : ltb h.ts start ≡ false = let q = a.0 in ground arith in
    rw p (none_before start t heads le a.1)

-- Of heads in order, those that were seen before `start` count by the last one alone.
pub seen_at-split :
    (start t : ℕ) (d : Text) (heads : List Head)
    → start ≤ t
    → Ordered seen_before heads
    → seen_at t d heads ≡ seen_at t (last_head d (pre_of start heads)) (post_of start heads)
unfolding seen_at keep last_head
seen_at-split start t d [] le o = refl
seen_at-split start t d (h ∷ heads) le o = elim (Bool-cases (ltb h.ts start)) [
  | inl p ↦
      let by : leb h.ts t ≡ true = ground arith in
      let early : leb start h.ts ≡ false = ground arith in
      rw (p, by, early) (seen_at-split start t h.sha heads le o.1)
  | inr p ↦
      let late : leb start h.ts ≡ true = ground arith in
      let none = none_before start h.ts heads ((leb_iff start h.ts).0 late) o.0 in
      let step = seen_at-split start t (if leb h.ts t then h.sha else d) heads le o.1 in
      rw (p, late, none) (step ∙ rw none refl)
]

shown_at-clamp_heads :
    (start t : ℕ) (d sha : Text) (h : Head) (pre post ordered : List Head)
    → start ≤ t
    → shown_at t d (windows_of_heads none start (clamp_heads start (h ∷ pre) post ordered))
      ≡ seen_at t (last_head sha (h ∷ pre)) post
unfolding clamp_heads windows_of_heads last_head
shown_at-clamp_heads start t d sha h [] post ordered le =
    shown_at-windows_from none t start d h.sha post
    ∙ (let by : leb start t ≡ true = ground arith in rw by refl)
shown_at-clamp_heads start t d sha h (g ∷ pre) post ordered le =
    shown_at-clamp_heads start t d h.sha g pre post ordered le

pub shown_at-ordered :
    (start t : ℕ) (d : Text) (pre post ordered : List Head)
    → start ≤ t
    → is_empty ordered ≡ false
    → (seen_at t (first_head d ordered) ordered
        ≡ seen_at t (last_head (first_head d ordered) pre) post)
    → shown_at t d (windows_of_heads none start (clamp_heads start pre post ordered))
      ≡ seen_at t (first_head d ordered) ordered
shown_at-ordered start t d [] post [] le e split = absurd (cc)
shown_at-ordered start t d [] post (h ∷ heads) le e split =
    unfold clamp_heads windows_of_heads seen_at in
    shown_at-windows_from none t start d h.sha heads
    ∙ (let by : leb start t ≡ true = ground arith in
        let same : h.sha ≡ (if leb h.ts t then h.sha else h.sha) = ground arith in
        rw by (ap (λ sha. seen_at t sha heads) same))
shown_at-ordered start t d (g ∷ pre) post ordered le e split =
    shown_at-clamp_heads start t d (first_head d ordered) g pre post ordered le ∙ sym split
