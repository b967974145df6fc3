-- ===== src/Updown/Order.antt =====
-- The groups that kelso/lib/lifecycle/updown.py starts, and their order.
use kelso.Common.{
  ℕ, ◌≡◌, refl, sym, ap, ◌∙◌, Bool, true, false, List, [], ◌∷◌, ◌++◌, if◌then◌else◌, ◌==◌, eq_nat,
  eq_list, contains, keep, Bool-cases, inl, inr, append_assoc, append-nil, ==→eq,
}
use kelso.Common.Result.{Result, ok, err, ok_of_bind}
use kelso.Common.Text.{Text}
use kelso.Common.Dict.{get}
use kelso.Common.Dict.Laws.{IsDict, get-put, put-IsDict}
use kelso.Updown.Groups.{Error, Groups, apps_of, add_app, group_apps}

-- Whether an app's start_order is `n`.
abbrev pub in_order : ℕ → Result Error ℕ → Bool
in_order n (ok order) = order == n
in_order n (err e) = false

abbrev pub has_order : (Text → Result Error ℕ) → ℕ → Text → Bool
has_order start_order n app = in_order n (start_order app)

get-add_app :
    (order : ℕ) (app : Text) (groups : Groups) (n : ℕ)
    → apps_of (get (add_app order app groups) n)
      ≡ apps_of (get groups n) ++ (if order == n then app ∷ [] else [])
unfolding add_app
get-add_app order app groups n = elim (Bool-cases (order == n)) [
  | inl same ↦
      let e : order ≡ n = ==→eq order n same in
      ap apps_of (get-put groups order n (apps_of (get groups order) ++ (app ∷ [])))
      ∙ rw (same, e) refl
  | inr other ↦
      ap apps_of (get-put groups order n (apps_of (get groups order) ++ (app ∷ [])))
      ∙ rw (other, append-nil (apps_of (get groups n))) refl
]

-- Appending to a missing group, or to one of the groups that are there, leaves no key twice.
pub add_app-IsDict :
    (order : ℕ) (app : Text) (groups : Groups) → IsDict groups → IsDict (add_app order app groups)
unfolding add_app
add_app-IsDict order app groups d =
    put-IsDict groups order (apps_of (get groups order) ++ (app ∷ [])) d

apart :
    (which : List ℕ) (order n : ℕ)
    → contains which order ≡ false
    → contains which n ≡ true
    → (order == n) ≡ false
apart which order n a h = elim (Bool-cases (order == n)) [
  | inr ne ↦ ne
  | inl same ↦ let e : order ≡ n = ==→eq order n same in cc (ap (contains which) e, a, h)
]

one_more :
    (start_order : Text → Result Error ℕ) (n : ℕ) (app : Text) (apps : List Text) (order : ℕ)
    → start_order app ≡ ok order
    → (if order == n then app ∷ [] else []) ++ keep (has_order start_order n) apps
      ≡ keep (has_order start_order n) (app ∷ apps)
one_more start_order n app apps order e = elim (Bool-cases (order == n)) [
  | inl a ↦ rw (e, a) refl
  | inr a ↦ rw (e, a) refl
]

unfoldable pub add_if : Bool → ℕ → Text → Groups → Groups
add_if b order app groups = if b then add_app order app groups else groups

get-add_if :
    (which : List ℕ) (order : ℕ) (app : Text) (groups : Groups) (n : ℕ)
    → contains which n ≡ true
    → apps_of (get (add_if (contains which order) order app groups) n)
      ≡ apps_of (get groups n) ++ (if order == n then app ∷ [] else [])
unfolding add_if
get-add_if which order app groups n h = elim (Bool-cases (contains which order)) [
  | inl a ↦ rw a (get-add_app order app groups n)
  | inr a ↦
      let ne : (order == n) ≡ false = apart which order n a h in
      rw (a, ne) (sym (append-nil (apps_of (get groups n))))
]

-- What the loop makes of the groups that it starts from.
pub group_apps-get :
    (start_order : Text → Result Error ℕ) (which : List ℕ) (apps : List Text) (groups made : Groups)
    (n : ℕ)
    → contains which n ≡ true
    → group_apps start_order which apps groups ≡ ok made
    → apps_of (get made n) ≡ apps_of (get groups n) ++ keep (has_order start_order n) apps
unfolding group_apps
group_apps-get start_order which [] groups made n w h =
    let e : groups ≡ made = cc h in
    ap (λ (g : Groups). apps_of (get g n)) (sym e) ∙ sym (append-nil (apps_of (get groups n)))
group_apps-get start_order which (app ∷ apps) groups made n w h =
    let order = ok_of_bind (start_order app) _ h in
    let later =
      group_apps-get start_order which apps (add_if (contains which order.0) order.0 app groups)
        made n w (unfold add_if in order.2) in
    later
    ∙ (ap (λ (l : List Text). l ++ keep (has_order start_order n) apps)
          (get-add_if which order.0 app groups n w)
        ∙ (append_assoc (apps_of (get groups n)) (if order.0 == n then app ∷ [] else [])
              (keep (has_order start_order n) apps)
            ∙ ap (λ (l : List Text). apps_of (get groups n) ++ l)
                (one_more start_order n app apps order.0 order.1)))
