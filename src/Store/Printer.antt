-- ===== src/Store/Printer.antt =====
-- A printer and a reader of JSON values in place of the json module that kelso/lib/store.py calls: a
-- value is a list of letters that a machine with a stack reads.
use kelso.Common.{
  ℕ, zero, suc, ◌≡◌, refl, ap, ◌∙◌, arith, true, false, List, [], ◌∷◌, if◌then◌else◌, ◌==◌, eq_nat,
}
use kelso.Common.Text.{Text, Lacks}
use kelso.LogTab.Row.{return}
use kelso.Store.Json.{
  Json, Items, Fields, null, minus_one, boolean, number, text, array, object, no_items, item,
  no_fields, field,
}
use kelso.Store.JsonStore.{JsonLibrary}

-- what the stack holds
pub data Part : Type 0 where
  count : ℕ → Part
  letters : Text → Part
  value : Json → Part
  items : Items → Part
  fields : Fields → Part

abbrev Stack : Type 0
Stack = List Part

abbrev more : Stack → Stack
more (count n ∷ st) = count (suc n) ∷ st
more st = st

abbrev to_number : Stack → Stack
to_number (count n ∷ st) = value (number n) ∷ st
to_number st = st

abbrev to_letter : Stack → Stack
to_letter (count n ∷ (letters t ∷ st)) = letters (n ∷ t) ∷ st
to_letter st = st

abbrev to_text : Stack → Stack
to_text (letters t ∷ st) = value (text t) ∷ st
to_text st = st

abbrev to_item : Stack → Stack
to_item (value v ∷ (items vs ∷ st)) = items (item v vs) ∷ st
to_item st = st

abbrev to_array : Stack → Stack
to_array (items vs ∷ st) = value (array vs) ∷ st
to_array st = st

abbrev to_field : Stack → Stack
to_field (value v ∷ (letters k ∷ (fields fs ∷ st))) = fields (field k v fs) ∷ st
to_field st = st

abbrev to_object : Stack → Stack
to_object (fields fs ∷ st) = value (object fs) ∷ st
to_object st = st

-- one letter of the text
unfoldable pub act : ℕ → Stack → Stack
act c st =
    if c == b'n'
    then value null ∷ st
    else if c == b'm'
    then value minus_one ∷ st
    else if c == b'T'
    then value (boolean true) ∷ st
    else if c == b'F'
    then value (boolean false) ∷ st
    else if c == b'z'
    then count 0 ∷ st
    else if c == b's'
    then more st
    else if c == b'#'
    then to_number st
    else if c == b'e'
    then letters [] ∷ st
    else if c == b'c'
    then to_letter st
    else if c == b't'
    then to_text st
    else if c == b'i'
    then items no_items ∷ st
    else if c == b'p'
    then to_item st
    else if c == b'a'
    then to_array st
    else if c == b'f'
    then fields no_fields ∷ st
    else if c == b'q'
    then to_field st
    else to_object st

unfoldable pub run : Text → Stack → Stack
run [] st = st
run (c ∷ s) st = run s (act c st)

unfoldable pub flat_count : ℕ → Text → Text
flat_count zero r = b'z' ∷ r
flat_count (suc n) r = flat_count n (b's' ∷ r)

unfoldable pub flat_text : Text → Text → Text
unfolding flat_count
flat_text [] r = b'e' ∷ r
flat_text (c ∷ t) r = flat_text t (flat_count c (b'c' ∷ r))

unfoldable mutual
  unfolding flat_count flat_text

  pub flat : Json → Text → Text
  flat null r = b'n' ∷ r
  flat minus_one r = b'm' ∷ r
  flat (boolean true) r = b'T' ∷ r
  flat (boolean false) r = b'F' ∷ r
  flat (number n) r = flat_count n (b'#' ∷ r)
  flat (text t) r = flat_text t (b't' ∷ r)
  flat (array vs) r = flat_items vs (b'a' ∷ r)
  flat (object fs) r = flat_fields fs (b'o' ∷ r)

  pub flat_items : Items → Text → Text
  flat_items no_items r = b'i' ∷ r
  flat_items (item v vs) r = flat_items vs (flat v (b'p' ∷ r))

  pub flat_fields : Fields → Text → Text
  flat_fields no_fields r = b'f' ∷ r
  flat_fields (field k v fs) r = flat_fields fs (flat_text k (flat v (b'q' ∷ r)))

run-count : (n : ℕ) (r : Text) (st : Stack) → run (flat_count n r) st ≡ run r (count n ∷ st)
unfolding run act flat_count
run-count zero r st = refl
run-count (suc n) r st = run-count n (b's' ∷ r) st

run-text : (t r : Text) (st : Stack) → run (flat_text t r) st ≡ run r (letters t ∷ st)
unfolding run act flat_text
run-text [] r st = refl
run-text (c ∷ t) r st = run-text t _ st ∙ run-count c _ _

mutual
  unfolding run act flat

  pub run-flat : (v : Json) (r : Text) (st : Stack) → run (flat v r) st ≡ run r (value v ∷ st)
  run-flat null r st = refl
  run-flat minus_one r st = refl
  run-flat (boolean true) r st = refl
  run-flat (boolean false) r st = refl
  run-flat (number n) r st = run-count n _ st
  run-flat (text t) r st = run-text t _ st
  run-flat (array vs) r st = run-items vs _ st
  run-flat (object fs) r st = run-fields fs _ st

  run-items :
      (vs : Items) (r : Text) (st : Stack) → run (flat_items vs r) st ≡ run r (items vs ∷ st)
  run-items no_items r st = refl
  run-items (item v vs) r st = run-items vs _ st ∙ run-flat v _ _

  run-fields :
      (fs : Fields) (r : Text) (st : Stack) → run (flat_fields fs r) st ≡ run r (fields fs ∷ st)
  run-fields no_fields r st = refl
  run-fields (field k v fs) r st = run-fields fs _ st ∙ run-text k _ _ ∙ run-flat v _ _

count-Lacks : (n : ℕ) (r : Text) → Lacks return r → Lacks return (flat_count n r)
unfolding flat_count
count-Lacks zero r h = (omega arith, h)
count-Lacks (suc n) r h = count-Lacks n _ (omega arith, h)

text-Lacks : (t r : Text) → Lacks return r → Lacks return (flat_text t r)
unfolding flat_text
text-Lacks [] r h = (omega arith, h)
text-Lacks (c ∷ t) r h = text-Lacks t _ (count-Lacks c _ (omega arith, h))

mutual
  unfolding flat

  pub flat-Lacks : (v : Json) (r : Text) → Lacks return r → Lacks return (flat v r)
  flat-Lacks null r h = (omega arith, h)
  flat-Lacks minus_one r h = (omega arith, h)
  flat-Lacks (boolean true) r h = (omega arith, h)
  flat-Lacks (boolean false) r h = (omega arith, h)
  flat-Lacks (number n) r h = count-Lacks n _ (omega arith, h)
  flat-Lacks (text t) r h = text-Lacks t _ (omega arith, h)
  flat-Lacks (array vs) r h = items-Lacks vs _ (omega arith, h)
  flat-Lacks (object fs) r h = fields-Lacks fs _ (omega arith, h)

  items-Lacks : (vs : Items) (r : Text) → Lacks return r → Lacks return (flat_items vs r)
  items-Lacks no_items r h = (omega arith, h)
  items-Lacks (item v vs) r h = items-Lacks vs _ (flat-Lacks v _ (omega arith, h))

  fields-Lacks : (fs : Fields) (r : Text) → Lacks return r → Lacks return (flat_fields fs r)
  fields-Lacks no_fields r h = (omega arith, h)
  fields-Lacks (field k v fs) r h =
      fields-Lacks fs _ (text-Lacks k _ (flat-Lacks v _ (omega arith, h)))

-- the value that is left on top
abbrev top : Stack → Json
top (value v ∷ st) = v
top st = null

unfoldable pub printer : JsonLibrary
unfolding run flat
printer = record {
  dumps = λ v. flat v [];
  loads = λ s. top (run s []);
  loads-dumps = λ v. ap top (run-flat v [] []);
  no_return = λ v. flat-Lacks v [] tt;
}
