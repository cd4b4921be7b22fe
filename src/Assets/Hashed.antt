-- ===== src/Assets/Hashed.antt =====
-- The version of the assets tells their files apart.
use one_time_note.Base.{◌≡◌, refl, sym, ap, ◌∙◌, some, none, List, [], ◌∷◌, ◌++◌, All}
use one_time_note.Base.Text.{Bytes, Lacks, cut, cut-append_sep}
use one_time_note.Base.Partial.{>>=-eq-some}
use one_time_note.Assets.{Found, walk_error, directory, no_info, irregular, regular, hash_input}

-- The names and contents of the regular files.
unfoldable pub regular_files : List (Bytes × Found) → List (Bytes × Bytes)
regular_files [] = []
regular_files ((name, regular (some content)) ∷ entries) = (name, content) ∷ regular_files entries
regular_files ((name, _) ∷ entries) = regular_files entries

flatten : List (Bytes × Bytes) → Bytes
flatten [] = []
flatten ((name, content) ∷ files) = name ++ (0 ∷ (content ++ (0 ∷ flatten files)))

-- Neither a name nor a content has a zero byte.
abbrev pub LacksZero : List (Bytes × Bytes) → Type 0
LacksZero = All (λ file. Lacks 0 file.0 × Lacks 0 file.1)

hash_input-flatten :
    (entries : List (Bytes × Found)) (input : Bytes)
    → hash_input entries ≡ some input
    → input ≡ flatten (regular_files entries)
unfolding hash_input flatten regular_files
hash_input-flatten [] input h = cc
hash_input-flatten ((name, walk_error) ∷ entries) input h = cc
hash_input-flatten ((name, directory) ∷ entries) input h = hash_input-flatten entries input h
hash_input-flatten ((name, no_info) ∷ entries) input h = cc
hash_input-flatten ((name, irregular) ∷ entries) input h = hash_input-flatten entries input h
hash_input-flatten ((name, regular none) ∷ entries) input h = cc
hash_input-flatten ((name, regular (some content)) ∷ entries) input h =
    let (later, e, same) = >>=-eq-some (hash_input entries) _ h in
    cc (hash_input-flatten entries later e, same)

flatten_injective :
    (xs ys : List (Bytes × Bytes)) → LacksZero xs → LacksZero ys → flatten xs ≡ flatten ys → xs ≡ ys
unfolding flatten cut
flatten_injective [] [] hx hy e = refl
flatten_injective [] ((m, d) ∷ ys) hx (hm, hy) e =
    cc (ap (λ s. cut s 0) e ∙ cut-append_sep m (d ++ (0 ∷ flatten ys)) 0 hm.0)
flatten_injective ((n, c) ∷ xs) [] (hn, hx) hy e =
    cc (ap (λ s. cut s 0) (sym e) ∙ cut-append_sep n (c ++ (0 ∷ flatten xs)) 0 hn.0)
flatten_injective ((n, c) ∷ xs) ((m, d) ∷ ys) ((hn, hc), hx) ((hm, hd), hy) e =
    let first = sym (cut-append_sep n _ 0 hn) ∙ ap (λ s. cut s 0) e ∙ cut-append_sep m _ 0 hm in
    let rest : c ++ (0 ∷ flatten xs) ≡ d ++ (0 ∷ flatten ys) = cc first in
    let second = sym (cut-append_sep c _ 0 hc) ∙ ap (λ s. cut s 0) rest ∙ cut-append_sep d _ 0 hd in
    let later : flatten xs ≡ flatten ys = cc second in
    cc (first, second, flatten_injective xs ys hx hy later)

-- Assets that are hashed from the same bytes have the same regular files, with the same names and
-- contents in the same order, if no name and no content has a zero byte.
pub hash_input_injective :
    (entries others : List (Bytes × Found)) (input : Bytes)
    → LacksZero (regular_files entries)
    → LacksZero (regular_files others)
    → hash_input entries ≡ some input
    → hash_input others ≡ some input
    → regular_files entries ≡ regular_files others
hash_input_injective entries others input hx hy e e' =
    flatten_injective (regular_files entries) (regular_files others) hx hy
      (sym (hash_input-flatten entries input e) ∙ hash_input-flatten others input e')
