-- ===== src/Store/Memory.antt =====
-- A ConfigStore of kelso/lib/store.py that keeps its entries in a dict, to run its clients on.
use kelso.Common.{
  ◌≡◌, refl, sym, ap, arith, Bool, true, false, [], ◌∷◌, ◌++◌, if◌then◌else◌, ◌==◌, eq_nat, eq_list,
  drop, length, Bool-cases, inl, inr,
}
use kelso.Common.Result.{Result, ok, err}
use kelso.Common.Text.{Text, codes, starts_with, ends_with}
use kelso.Common.Dict.{Dict, get, put, pop_where}
use kelso.Common.Dict.Laws.{get-put, get-pop_where}
use kelso.Store.Json.{Json, null}
use kelso.Store.Config.{Error, bad_prefix, or_null, ConfigStore, CryptoEngine}

unfoldable pub scan_dict : Text → Dict Text Json → Dict Text Json
scan_dict p [] = []
scan_dict p ((k, v) ∷ d) =
    let rest = scan_dict p d in if starts_with k p then (drop (length p) k, v) ∷ rest else rest

-- The keys with a prefix are the prefix and what is behind it.
prefix_test : (k p j : Text) → starts_with k p ≡ true → (drop (length p) k == j) ≡ (k == (p ++ j))
prefix_test k [] j h = refl
prefix_test [] (c ∷ p) j h = cc
prefix_test (d ∷ k) (c ∷ p) j h = ground (arith, prefix_test k p j, h)

prefix_none : (k p j : Text) → starts_with k p ≡ false → (k == (p ++ j)) ≡ false
prefix_none k [] j h = cc
prefix_none [] (c ∷ p) j h = refl
prefix_none (d ∷ k) (c ∷ p) j h = ground (arith, prefix_none k p j, h)

pub get-scan_dict : (p j : Text) (d : Dict Text Json) → get (scan_dict p d) j ≡ get d (p ++ j)
unfolding get scan_dict
get-scan_dict p j [] = refl
get-scan_dict p j ((k, v) ∷ d) = elim (Bool-cases (starts_with k p)) [
  | inl has ↦ rw (has, prefix_test k p j has, get-scan_dict p j d) refl
  | inr lacks ↦ rw (lacks, prefix_none k p j lacks) (get-scan_dict p j d)
]

abbrev pub memory_clear : Text → Dict Text Json → Result Error (Dict Text Json)
memory_clear p s =
    if ends_with p (codes "/")
    then ok (pop_where (λ (k : Text). starts_with k p) s)
    else err bad_prefix

unfoldable pub memory_read : Text → Dict Text Json → Json
unfolding get
memory_read k s = or_null (get s k)

pub memory_write_lem :
    (k j : Text) (v : Json) (s t : Dict Text Json)
    → ◌≡◌ {A = Result Error (Dict Text Json)} (ok (put s k v)) (ok t)
    → memory_read j t ≡ (if k == j then v else memory_read j s)
unfolding memory_read
memory_write_lem k j v s t h =
    let e : put s k v ≡ t = cc h in rw (← e) (rw (get-put s k j v) (ground arith))

pub memory_drop_lem :
    (drops : Text → Bool) (j : Text) (s t : Dict Text Json)
    → ◌≡◌ {A = Result Error (Dict Text Json)} (ok (pop_where drops s)) (ok t)
    → memory_read j t ≡ (if drops j then null else memory_read j s)
unfolding memory_read
memory_drop_lem drops j s t h =
    let e : pop_where drops s ≡ t = cc h in rw (← e) (rw (get-pop_where drops s j) (ground arith))

pub memory_clear_lem :
    (p j : Text) (s t : Dict Text Json)
    → memory_clear p s ≡ ok t
    → memory_read j t ≡ (if starts_with j p then null else memory_read j s)
memory_clear_lem p j s t h = elim (Bool-cases (ends_with p (codes "/"))) [
  | inl e ↦ memory_drop_lem (λ (k : Text). starts_with k p) j s t (rw e at h)
  | inr e ↦ let k : err bad_prefix ≡ ok t = rw e at h in cc k
]

pub memory_scan_lem :
    (p j : Text) (s : Dict Text Json) → or_null (get (scan_dict p s) j) ≡ memory_read (p ++ j) s
unfolding memory_read
memory_scan_lem p j s = ap or_null (get-scan_dict p j s)

unfoldable pub memory : ConfigStore (Dict Text Json)
unfolding memory_read scan_dict
memory = record {
  write = λ k v s. ok (put s k v);
  read = memory_read;
  scan = scan_dict;
  clear = memory_clear;
  delete = λ k s. ok (pop_where (λ (j : Text). k == j) s);
  read-write = memory_write_lem;
  read-clear = memory_clear_lem;
  read-delete = λ k. memory_drop_lem (λ (j : Text). k == j);
  scan-read = memory_scan_lem;
}

pub plain_back :
    (plain blob : Text)
    → ◌≡◌ {A = Result Error Text} (ok plain) (ok blob)
    → ◌≡◌ {A = Result Error Text} (ok blob) (ok plain)
plain_back plain blob h = sym h

-- NoopCryptoEngine of kelso/lib/crypto.py
unfoldable pub noop_crypto : CryptoEngine
noop_crypto = record {
  encrypt = λ plain. ok plain;
  decrypt = λ blob. ok blob;
  decrypt-encrypt = plain_back;
}
