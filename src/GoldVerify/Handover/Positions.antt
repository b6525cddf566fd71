-- ===== src/GoldVerify/Handover/Positions.antt =====
-- An API of Drive over a folder of CSV files that are known by their positions, which keeps the
-- laws.
use go_drive_etl.Common.{
  ℕ, none, false, [], ◌∷◌, ◌++◌, ok, err, Text, codes, List, Result, ◌≡◌, ◌≢◌, refl, sym, ap, ◌∙◌,
  arith, ◌+◌, ◌≤◌, inl, inr, length, map, if◌then◌else◌, text_eq, text_eq_refl, text_eq_iff,
  canceled, Bool-cases, All, append-nil,
}
use mathlib.Core.Path.{subst}
use mathlib.Core.List.Permᴰ
use mathlib.Core.List.{Permᴰ}
use go_drive_etl.Drive.{
  Page, Write, update, create, upsert_query, drive_query_literal, folder_mime_type,
}
use go_drive_etl.Drive.Listing.{last}
use go_drive_etl.GoldReport.{csv_name}
use go_drive_etl.GoldVerify.Handover.{
  Stored, file_of, csv_file, IsIn, count_stored, daily, latest, IsGold, DriveApi, ApiLaws,
}
use go_drive_etl.GoldVerify.Handover.Folder.{IsIn-unique, IsIn-middle}

pub record Entry : Type 0 where
  pub name : Text
  pub content : Text

abbrev pub stored_at : ℕ → Entry → Stored
stored_at n e = csv_file (n ∷ []) e.name e.content

abbrev pub stored_from : ℕ → List Entry → List Stored
stored_from n [] = []
stored_from n (e ∷ entries) = stored_at n e ∷ stored_from (n + 1) entries

abbrev pub content_of : Text → List Stored → Result (Result Text)
content_of id [] = err canceled
content_of id (f ∷ s) = if text_eq f.id id then ok (ok f.content) else content_of id s

-- The entry at a position, counted from `n` on, is another.
abbrev pub set_from : ℕ → Text → Entry → List Entry → List Entry
set_from n id new [] = []
set_from n id new (e ∷ entries) =
    if text_eq (n ∷ []) id then new ∷ entries else e ∷ set_from (n + 1) id new entries

abbrev pub of_name : Text → List Stored → List Stored
of_name name [] = []
of_name name (f ∷ s) = if text_eq f.name name then f ∷ of_name name s else of_name name s

abbrev pub out : Text
out = codes "out"

abbrev pub asked : Text → Text
asked query =
    if text_eq query (upsert_query out (csv_name daily)) then csv_name daily else csv_name latest

abbrev pub no_sum : Text → Text
no_sum content = []

abbrev pub one_page : List Entry → Page
one_page w = record { files = map (file_of no_sum) (stored_from 0 w); next_page_token = [] }

abbrev pub written_to : Write → List Entry → List Entry
written_to (create folder name mime_type content) w =
    w ++ record { name = name; content = content } ∷ []
written_to (update id name mime_type content) w =
    set_from 0 id (record { name = name; content = content }) w

abbrev pub api : DriveApi (List Entry)
api = record {
  page = λ query token w. ok (one_page w);
  search = λ query w. ok (map (file_of no_sum) (of_name (asked query) (stored_from 0 w)));
  get = λ id w. content_of id (stored_from 0 w);
  write = λ x w. (none, written_to x w);
}

-- A position before those of a list.
id-other :
    (k n : ℕ) (f : Stored) (entries : List Entry)
    → k + 1 ≤ n
    → IsIn f (stored_from n entries)
    → text_eq (k ∷ []) f.id ≡ false
unfolding IsIn
id-other k n f [] h m = absurd m
id-other k n f (e ∷ entries) h (inl same) =
    ap (λ (g : Stored). text_eq (k ∷ []) g.id) same ∙ ground arith
id-other k n f (e ∷ entries) h (inr m) = id-other k (n + 1) f entries (omega arith) m

content_of-IsIn :
    (n : ℕ) (f : Stored) (entries : List Entry)
    → IsIn f (stored_from n entries)
    → content_of f.id (stored_from n entries) ≡ ok (ok f.content)
unfolding IsIn
content_of-IsIn n f [] m = absurd m
content_of-IsIn n f (e ∷ entries) (inl same) = rw (same, text_eq_refl (n ∷ []))
content_of-IsIn n f (e ∷ entries) (inr m) =
    rw (id-other n (n + 1) f entries (omega arith) m) (content_of-IsIn (n + 1) f entries m)

no_folders : (n : ℕ) (w : List Entry) → All (λ f. f.mime_type ≢ folder_mime_type) (stored_from n w)
no_folders n [] = tt
no_folders n (e ∷ w) = ((λ h. cc h), no_folders (n + 1) w)

of_name-none : (name : Text) (s : List Stored) → count_stored name s ≡ 0 → of_name name s ≡ []
unfolding count_stored
of_name-none name [] h = refl
of_name-none name (f ∷ s) h = ground (arith, of_name-none name s)

of_name-one :
    (name : Text) (s : List Stored) (f : Stored)
    → count_stored name s ≡ 1
    → IsIn f s
    → f.name ≡ name
    → of_name name s ≡ f ∷ []
unfolding count_stored IsIn
of_name-one name [] f h m e = absurd m
of_name-one name (g ∷ s) f h m e = elim (Bool-cases (text_eq g.name name)) [
  | inl same ↦
      let own : f ≡ g =
        IsIn-unique name (g ∷ s) f g (omega (arith, h)) m e (inl refl)
          ((text_eq_iff g.name name).0 same) in
      rw (same, of_name-none name s (ground arith)) (ap (λ (k : Stored). k ∷ []) (sym own))
  | inr other ↦ rw other (of_name-one name s f (ground arith) (in_rest other m) e)
]
  where
    in_rest : text_eq g.name name ≡ false → IsIn f (g ∷ s) → IsIn f s
    in_rest other (inl k) =
        absurd (cc (other, (text_eq_iff g.name name).1 (ap (λ (x : Stored). x.name) (sym k) ∙ e)))
    in_rest other (inr k) = k

asked-gold :
    (table : Text) → IsGold table → asked (upsert_query out (csv_name table)) ≡ csv_name table
unfolding upsert_query drive_query_literal
asked-gold table (inl e) =
    subst (λ (t : Text). asked (upsert_query out (csv_name t)) ≡ csv_name t) (sym e) refl
asked-gold table (inr e) =
    subst (λ (t : Text). asked (upsert_query out (csv_name t)) ≡ csv_name t) (sym e) refl

search-asked :
    (table : Text) (w : List Entry) (found : List Stored)
    → IsGold table
    → of_name (csv_name table) (stored_from 0 w) ≡ found
    → api.search (upsert_query out (csv_name table)) w ≡ ok (map (file_of no_sum) found)
search-asked table w found gold h =
    ap (λ (name : Text). ok (map (file_of no_sum) (of_name name (stored_from 0 w))))
      (asked-gold table gold)
    ∙ ap (λ (s : List Stored). ok (map (file_of no_sum) s)) h

stored_from-added :
    (n : ℕ) (new : Entry) (w : List Entry)
    → Permᴰ (stored_from n (w ++ new ∷ [])) (stored_at (n + length w) new ∷ stored_from n w)
stored_from-added n new [] = Permᴰ.cons (ap (λ (k : ℕ). stored_at k new) (omega arith)) Permᴰ.nil
stored_from-added n new (e ∷ w) =
    Permᴰ.trans (Permᴰ.cons refl (stored_from-added (n + 1) new w))
      (Permᴰ.swap refl (ap (λ (k : ℕ). stored_at k new) (omega arith)))

stored_from-set :
    (n : ℕ) (before : List Stored) (f : Stored) (after : List Stored) (new : Entry) (w : List Entry)
    → stored_from n w ≡ before ++ f ∷ after
    → Permᴰ
        (stored_from n (set_from n f.id new w))
        (csv_file f.id new.name new.content ∷ before ++ after)
stored_from-set n [] f after new [] h = cc
stored_from-set n (b ∷ before) f after new [] h = cc
stored_from-set n [] f after new (e ∷ w) h =
    let same : stored_at n e ≡ f = cc in
    let rest : stored_from (n + 1) w ≡ after = cc in
    subst
      (λ (g : Stored).
        Permᴰ (stored_from n (set_from n g.id new (e ∷ w)))
          (csv_file g.id new.name new.content ∷ after))
      same
      (rw (text_eq_refl (n ∷ [])) (
        subst
          (λ (s : List Stored).
            Permᴰ (stored_at n new ∷ stored_from (n + 1) w) (stored_at n new ∷ s))
          rest (Permᴰ.refl _)))
stored_from-set n (b ∷ before) f after new (e ∷ w) h =
    let same : stored_at n e ≡ b = cc in
    let rest : stored_from (n + 1) w ≡ before ++ f ∷ after = cc in
    let held : IsIn f (stored_from (n + 1) w) =
      subst (λ (s : List Stored). IsIn f s) (sym rest) (IsIn-middle before f after) in
    rw (id-other n (n + 1) f w (omega arith) held) (
      Permᴰ.trans (Permᴰ.cons refl (stored_from-set (n + 1) before f after new w rest))
        (Permᴰ.swap same refl))

pub api-ApiLaws : ApiLaws api 1 no_sum out (λ w. stored_from 0 w) (λ w. length w ∷ [])
api-ApiLaws = record {
  pages = λ w. one_page w ∷ [];
  pages_end = λ w. last (one_page w) refl refl;
  pages_fit = λ w. omega arith;
  pages_hold = λ w. append-nil (map (file_of no_sum) (stored_from 0 w));
  no_folders = λ w. no_folders 0 w;
  get_ok = λ f w m. content_of-IsIn 0 f w m;
  search_none = λ table w gold h.
      search-asked table w [] gold (of_name-none (csv_name table) (stored_from 0 w) h);
  search_one = λ table f w gold h m e.
      search-asked table w (f ∷ []) gold (of_name-one (csv_name table) (stored_from 0 w) f h m e);
  create_ok = λ name content w. refl;
  stored-create = λ name content w.
      Permᴰ.trans (stored_from-added 0 (record { name = name; content = content }) w) (
        Permᴰ.cons
          (ap (λ (k : ℕ). stored_at k (record { name = name; content = content })) (omega arith))
          (Permᴰ.refl _));
  update_ok = λ f name content w m. refl;
  stored-update = λ before f after name content w h.
      stored_from-set 0 before f after (record { name = name; content = content }) w h;
}
