-- ===== src/Tests/HeaderLists.antt =====
-- A header map as a list of pairs, which behaves as documented.
use auth_mini_gateway.Prelude.{
  ◌≡◌, ◌≢◌, refl, true, some, List, [], ◌∷◌, ◌++◌, any, if◌then◌else◌, arith, Bool-cases, inl, inr,
}
use auth_mini_gateway.Prelude.Text.{Str, codes, str_eq, lowercase, str_eq_refl, eq_of_str_eq}
use auth_mini_gateway.Crates.{v4}
use auth_mini_gateway.Crates.HeaderMap.{HttpCrate, IsHeaderMap}

abbrev pub Pairs : Type 0
Pairs = List (Str × Str)

unfoldable pub get_all : Pairs → Str → List Str
get_all [] m = []
get_all ((n, v) ∷ h) m = let rest = get_all h m in if str_eq n m then v ∷ rest else rest

unfoldable pub remove : Str → Pairs → Pairs
remove n [] = []
remove n ((k, v) ∷ h) = let rest = remove n h in if str_eq n k then rest else (k, v) ∷ rest

unfoldable pub names : Pairs → List Str
names [] = []
names ((n, v) ∷ h) = n ∷ names h

abbrev pub http : HttpCrate
http = record {
  HeaderMap = Pairs;
  get_all = get_all;
  keys = names;
  remove = remove;
  insert = λ n v h. (n, v) ∷ remove n h;
  append = λ n v h. h ++ (n, v) ∷ [];
  name_from_bytes = λ s. some (lowercase s);
  value_from_str = λ s. some s;
  to_str = λ v. some v;
  ip_text = λ ip. codes "10.1.2.3";
  parse_ip = λ s. some (v4 7);
}

get_all-remove :
    (n m : Str) (h : Pairs) → get_all (remove n h) m ≡ (if str_eq n m then [] else get_all h m)
unfolding get_all remove
get_all-remove n m [] = ground arith
get_all-remove n m ((k, v) ∷ h) =
    ground (arith, get_all-remove n m h, eq_of_str_eq n k, eq_of_str_eq k m, str_eq_refl m)

get_all-insert :
    (n v m : Str) (h : Pairs)
    → get_all ((n, v) ∷ remove n h) m ≡ (if str_eq n m then v ∷ [] else get_all h m)
unfolding get_all
get_all-insert n v m h = ground (arith, get_all-remove n m h)

get_all-append :
    (n v m : Str) (h : Pairs)
    → get_all (h ++ (n, v) ∷ []) m ≡ (if str_eq n m then get_all h m ++ v ∷ [] else get_all h m)
unfolding get_all
get_all-append n v m [] = ground arith
get_all-append n v m ((k, w) ∷ h) = ground (arith, get_all-append n v m h)

names_complete : (m : Str) (h : Pairs) → get_all h m ≢ [] → any (λ n. str_eq n m) (names h) ≡ true
unfolding get_all names
names_complete m [] ne = absurd (ne refl)
names_complete m ((n, v) ∷ h) ne = elim (Bool-cases (str_eq n m)) [
  | inl t ↦ rw t refl
  | inr f ↦ rw f (names_complete m h (λ e. ne (rw f e)))
]

pub http-IsHeaderMap : IsHeaderMap http
http-IsHeaderMap = record {
  get_all-remove = get_all-remove;
  get_all-insert = get_all-insert;
  get_all-append = get_all-append;
  keys_complete = names_complete;
  value_kept = λ s v e. cc;
}
