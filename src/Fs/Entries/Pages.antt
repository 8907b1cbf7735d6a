-- ===== src/Fs/Entries/Pages.antt =====
-- The pages in which the loop of `readdir` (src/fs.rs) hands out a list.
use pgfs.Prelude.{
  append_nil, append_assoc, ℕ, zero, suc, ◌+◌, ◌-◌, ◌≤◌, ◌≡◌, ◌∙◌, sym, ap, refl, Bool, false, List,
  [], ◌∷◌, ◌++◌, arith, Str, length, length-drop, min, take, drop, Bool-cases, inl, inr,
}
use pgfs.Db.Rows.{Kind}
use pgfs.Fs.State.{DirEntry}
use pgfs.Fs.Entries.{numbered, fill}

abbrev pub Item : Type 0
Item = ℕ × Kind × Str

abbrev pub Full : Type 0
Full = List DirEntry → DirEntry → Bool

-- A buffer has room for the first entry.
abbrev pub HasRoom : Full → Type 0
HasRoom full = (e : DirEntry) → full [] e ≡ false

abbrev pub last_offset : ℕ → List DirEntry → ℕ
last_offset i [] = i
last_offset i (e ∷ es) = last_offset e.offset es

-- The page that begins at entry number `offset`.
abbrev pub page : Full → ℕ → List Item → List DirEntry
page full offset es = fill full [] (drop offset (numbered 0 es))

-- Page after page, each from the offset of the last entry before it.
abbrev pub pages : List Full → ℕ → List Item → List DirEntry
pages [] offset es = []
pages (full ∷ fulls) offset es =
    page full offset es ++ pages fulls (last_offset offset (page full offset es)) es

abbrev pub AllHaveRoom : List Full → Type 0
AllHaveRoom [] = Unit {0}
AllHaveRoom (full ∷ fulls) = HasRoom full × AllHaveRoom fulls

drop-numbered : (n i : ℕ) (es : List Item) → drop n (numbered i es) ≡ numbered (n + i) (drop n es)
unfolding numbered
drop-numbered zero i es = ap (λ k. numbered k es) (omega arith)
drop-numbered (suc n) i [] = refl
drop-numbered (suc n) i ((ino, kind, name) ∷ es) =
    drop-numbered n (i + 1) es ∙ ap (λ k. numbered k (drop n es)) (omega arith)

-- The loop adds the first `n` of the entries, for some `n`.
fill-numbered :
    (full : Full) (added : List DirEntry) (i : ℕ) (es : List Item)
    → (n : ℕ) × (n ≤ length es)
      × (fill full added (numbered i es) ≡ added ++ numbered i (take n es))
unfolding fill numbered
fill-numbered full added i [] = (0, omega arith, sym (append_nil added))
fill-numbered full added i ((ino, kind, name) ∷ es) =
    let e : DirEntry = record { ino = ino; offset = i + 1; kind = kind; name = name } in
    let (n, fits, same) = fill-numbered full (added ++ e ∷ []) (i + 1) es in
    elim (Bool-cases (full added e)) [
      | inl stop ↦ (0, omega arith, rw (stop) (sym (append_nil added)))
      | inr room ↦ (
        suc n,
        omega arith,
        rw (room) (same ∙ append_assoc added (e ∷ []) (numbered (i + 1) (take n es))),
      )
    ]

-- With room for the first entry, a page of a list that is not empty has an entry.
fill_progress :
    (full : Full) (i : ℕ) (es : List Item)
    → HasRoom full
    → (n : ℕ) × (n ≤ length es)
      × (min 1 (length es) ≤ n)
      × (fill full [] (numbered i es) ≡ numbered i (take n es))
unfolding fill numbered
fill_progress full i [] room = (0, omega arith, omega arith, refl)
fill_progress full i ((ino, kind, name) ∷ es) room =
    let e : DirEntry = record { ino = ino; offset = i + 1; kind = kind; name = name } in
    let (n, fits, same) = fill-numbered full (e ∷ []) (i + 1) es in
    (suc n, omega arith, omega arith, rw (room e) same)

last_offset-numbered :
    (n i : ℕ) (es : List Item) → n ≤ length es → last_offset i (numbered i (take n es)) ≡ i + n
unfolding numbered
last_offset-numbered zero i es fits = omega arith
last_offset-numbered (suc n) i [] fits = omega arith
last_offset-numbered (suc n) i ((ino, kind, name) ∷ es) fits =
    omega (arith, last_offset-numbered n (i + 1) es (omega arith))

numbered_split :
    (n i : ℕ) (es : List Item)
    → n ≤ length es
    → numbered i (take n es) ++ numbered (i + n) (drop n es) ≡ numbered i es
unfolding numbered
numbered_split zero i es fits = ap (λ k. numbered k es) (omega arith)
numbered_split (suc n) i [] fits = absurd (omega arith)
numbered_split (suc n) i ((ino, kind, name) ∷ es) fits =
    let e : DirEntry = record { ino = ino; offset = i + 1; kind = kind; name = name } in
    ap (λ t. e ∷ t)
      (ap (λ k. numbered (i + 1) (take n es) ++ numbered k (drop n es)) (omega arith)
        ∙ numbered_split n (i + 1) es (omega arith))

drop_all : (n : ℕ) (es : List Item) → length es ≤ n → drop n es ≡ []
drop_all zero [] all = refl
drop_all zero (e ∷ es) all = absurd (omega arith)
drop_all (suc n) [] all = refl
drop_all (suc n) (e ∷ es) all = drop_all n es (omega arith)

drop-drop : (i n : ℕ) (es : List Item) → drop n (drop i es) ≡ drop (i + n) es
drop-drop zero n es = ap (λ k. drop k es) (omega arith)
drop-drop (suc i) n [] = drop_all n [] (omega arith) ∙ sym (drop_all (suc i + n) [] (omega arith))
drop-drop (suc i) n (e ∷ es) =
    let same : suc (i + n) ≡ suc i + n = omega arith in
    drop-drop i n es ∙ ap (λ k. drop k (e ∷ es)) same

page_progress :
    (full : Full) (i : ℕ) (es : List Item)
    → HasRoom full
    → (n : ℕ) × (n ≤ length (drop i es))
      × (min 1 (length (drop i es)) ≤ n)
      × (page full i es ≡ numbered i (take n (drop i es)))
page_progress full i es room =
    let (n, fits, progress, same) = fill_progress full i (drop i es) room in
    (
      n,
      fits,
      progress,
      ap (fill full []) (drop-numbered i 0 es ∙ ap (λ k. numbered k (drop i es)) (omega arith))
          ∙ same,
    )

pages_from :
    (fulls : List Full) (i : ℕ) (es : List Item)
    → AllHaveRoom fulls
    → length es ≤ i + length fulls
    → pages fulls i es ≡ numbered i (drop i es)
unfolding numbered
pages_from [] i es room enough = ap (numbered i) (sym (drop_all i es (omega arith)))
pages_from (full ∷ fulls) i es (room, rooms) enough =
    let (n, fits, progress, same) = page_progress full i es room in
    let len : length (drop i es) ≡ length es - i = length-drop i es in
    let last : last_offset i (page full i es) ≡ i + n =
      ap (last_offset i) same ∙ last_offset-numbered n i (drop i es) fits in
    let rest = pages_from fulls (i + n) es rooms (omega arith) in
    rw (last, rest, same, sym (drop-drop i n es)) (numbered_split n i (drop i es) fits)

-- With as many pages as entries, each of which has room for an entry, every entry is in one of them.
pub pages_lem :
    (fulls : List Full) (es : List Item)
    → AllHaveRoom fulls
    → length es ≤ length fulls
    → pages fulls 0 es ≡ numbered 0 es
pages_lem fulls es rooms enough = pages_from fulls 0 es rooms (omega arith)
