-- ===== src/ControlStream/Route.antt =====
-- parseAttributeTo and makeAttributeTo of src/controlstream.cpp.
use libmaycloud.Common.{
  ℕ, ◌≡◌, sym, ap, ap₂, ◌∙◌, ◌≢◌, List, [], ◌∷◌, ◌++◌, append_assoc, arith, All, All-imply,
  All-append,
}
use libmaycloud.Easylib.Pieces.{find}
use libmaycloud.Easylib.Pieces.Split.{Unmatched-other, find-Unmatched, find-none}
use libmaycloud.ControlStream.{front, behind}
use libmaycloud.Easylib.Pieces.Walk.{drop-append_add, take-append}

-- The second half: the route and the name.
split_part : (part resource : List ℕ) → List ℕ × List ℕ × List ℕ
split_part part resource =
    let colon = find part (58 ∷ []) 0 in (front part colon, behind part colon, resource)

-- The route, the name and the resource.
pub parse_attribute_to : List ℕ → List ℕ × List ℕ × List ℕ
unfolding split_part
parse_attribute_to to =
    let slash = find to (47 ∷ []) 0 in split_part (front to slash) (behind to slash)

-- The overload without the resource.
pub parse_attribute_to_name : List ℕ → List ℕ × List ℕ
unfolding parse_attribute_to
parse_attribute_to_name to = let r = parse_attribute_to to in (r.0, r.1)

pub make_attribute_to : (route name : List ℕ) → List ℕ
make_attribute_to route name = route ++ (58 ∷ name)

pub make_attribute_to_resource : (route name resource : List ℕ) → List ℕ
make_attribute_to_resource route name resource = route ++ (58 ∷ (name ++ (47 ∷ resource)))

-- A route without a slash or a colon, and a name without a slash.
module _ (route name : List ℕ) (r : All (λ c. (c ≢ 47) × (c ≢ 58)) route)
    (n : All (λ c. c ≢ 47) name) where
  part-other : All (λ c. c ≢ 47) (route ++ (58 ∷ name))
  part-other = All-append _ route (58 ∷ name) (All-imply (λ c t. t.0) route r) (omega arith, n)

  split_part-make :
      (resource : List ℕ) → split_part (route ++ (58 ∷ name)) resource ≡ (route, name, resource)
  unfolding split_part
  split_part-make resource =
      let part = route ++ (58 ∷ name) in
      ap (λ o. (front part o, behind part o, resource))
        (find-Unmatched (58 ∷ []) name route (omega arith)
          (Unmatched-other 58 [] (58 ∷ name) route (All-imply (λ c t. t.1) route r)))
      ∙ ap₂ (λ a b. (a, b, resource)) (take-append route (58 ∷ name))
          (drop-append_add route (58 ∷ name) 1)

  -- parseAttributeTo takes apart what makeAttributeTo puts together: a route without a slash or a colon, a name
  -- without a slash and any resource come back, and without a resource the empty one.
  pub parse-make_attribute_to :
      (resource : List ℕ)
      → (parse_attribute_to (make_attribute_to_resource route name resource)
          ≡ (route, name, resource))
        × (parse_attribute_to (make_attribute_to route name) ≡ (route, name, []))
  unfolding parse_attribute_to make_attribute_to make_attribute_to_resource
  parse-make_attribute_to resource =
      let part = route ++ (58 ∷ name) in
      let whole = part ++ (47 ∷ resource) in
      (
        ap (λ to. split_part (front to (find to (47 ∷ []) 0)) (behind to (find to (47 ∷ []) 0)))
              (sym (append_assoc route (58 ∷ name) (47 ∷ resource)))
            ∙ ap (λ o. split_part (front whole o) (behind whole o))
                (find-Unmatched (47 ∷ []) resource part (omega arith)
                  (Unmatched-other 47 [] (47 ∷ resource) part part-other))
            ∙ ap₂ split_part (take-append part (47 ∷ resource))
                (drop-append_add part (47 ∷ resource) 1)
            ∙ split_part-make resource,
        ap (λ o. split_part (front part o) (behind part o))
              (find-none (47 ∷ []) part (omega arith) (Unmatched-other 47 [] [] part part-other))
            ∙ split_part-make [],
      )
