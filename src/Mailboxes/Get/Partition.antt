-- ===== src/Mailboxes/Get/Partition.antt =====
-- Every id that `Mailbox/get` is asked for is answered once: with an object, or as not found.
use jmap_bridge.Base.{
  ◌+◌, ◌≡◌, refl, ap, ◌∙◌, String, Bool, ◌&&◌, ◌||◌, not, Option, none, some, List, [], ◌∷◌, ◌++◌,
  map, length, length-append, length-map, string_eq, ◌==◌, contains, contains-append, arith, inl,
  inr, Bool-cases,
}
use jmap_bridge.Base.Dict
use jmap_bridge.Base.Dict.{Dict}
use jmap_bridge.Json.{Fields}
use jmap_bridge.Errors.{ok}
use jmap_bridge.Effects.Keeps.{Returns, >>=-Returns}
use jmap_bridge.Mailboxes.Get.{
  Object, GetArgs, GetResponse, found_directly, found_by_redirect, select_ids, project, mailbox_get,
  Swept, sweep_with_unseen, all_mailboxes, get_response,
}
use jmap_bridge.Mailboxes.Sweeping.{dict_of}
use jmap_bridge.Requests.{or_own, Request, Ctx, resolve_id, require_account, on_server}
use jmap_bridge.Effects.{or_server_fail, lift}

abbrev pub ids_of : List Object → List String
ids_of = map (λ (i, _). i)

-- An id has an object of its own, or its redirect has.
abbrev pub was_found : (String → String) → Dict String Fields → String → Bool
was_found resolve by_id i = Dict.has i by_id || Dict.has (resolve i) by_id

-- The answer to a list of ids: who is found has an object under the id that was asked for, the
-- others are reported, and nothing is answered twice or made up.
pub record IsPartition (resolve : String → String) (by_id : Dict String Fields) (ids : List String)
    (objects : List Object) (not_found : List String) : Type 0 where
  pub found :
      (i : String) → contains (ids_of objects) i ≡ (contains ids i && was_found resolve by_id i)
  pub missing :
      (i : String) → contains not_found i ≡ (contains ids i && not (was_found resolve by_id i))
  pub once : length objects + length not_found ≡ length ids

ids_of-append : (xs ys : List Object) → ids_of (xs ++ ys) ≡ ids_of xs ++ ids_of ys
ids_of-append [] ys = refl
ids_of-append ((i, _) ∷ xs) ys = ap (λ l. i ∷ l) (ids_of-append xs ys)

module _ (resolve : String → String) (by_id : Dict String Fields) where
  contains-found_directly :
      (ids : List String) (i : String)
      → contains (ids_of (found_directly by_id ids)) i ≡ (contains ids i && Dict.has i by_id)
  unfolding found_directly Dict.has
  contains-found_directly [] i = refl
  contains-found_directly (j ∷ ids) i = ground (arith, contains-found_directly ids i)

  contains-again :
      (ids : List String) (i : String)
      → contains (ids_of (found_by_redirect resolve by_id ids).0) i
        ≡ (contains ids i && (not (Dict.has i by_id) && Dict.has (resolve i) by_id))
  unfolding found_by_redirect Dict.has
  contains-again [] i = refl
  contains-again (j ∷ ids) i = ground (arith, contains-again ids i)

  contains-missing :
      (ids : List String) (i : String)
      → contains (found_by_redirect resolve by_id ids).1 i
        ≡ (contains ids i && not (was_found resolve by_id i))
  unfolding found_by_redirect Dict.has
  contains-missing [] i = refl
  contains-missing (j ∷ ids) i = ground (arith, contains-missing ids i)

  length-parts :
      (ids : List String)
      → length (found_directly by_id ids)
          + (length (found_by_redirect resolve by_id ids).0
              + length (found_by_redirect resolve by_id ids).1)
        ≡ length ids
  unfolding found_directly found_by_redirect
  length-parts [] = refl
  length-parts (j ∷ ids) = ground (arith, length-parts ids)

  partition_lem :
      (ids : List String)
      → IsPartition resolve by_id ids
          (found_directly by_id ids ++ (found_by_redirect resolve by_id ids).0)
          (found_by_redirect resolve by_id ids).1
  partition_lem ids =
      let direct = found_directly by_id ids in
      let again = (found_by_redirect resolve by_id ids).0 in
      record {
        found = λ i.
            ap (λ l. contains l i) (ids_of-append direct again)
            ∙ ground (
              arith,
              contains-append (ids_of direct) (ids_of again) i,
              contains-found_directly ids i,
              contains-again ids i,
            );
        missing = contains-missing ids;
        once = omega (arith, length-append direct again, length-parts ids);
      }

ids_of-project :
    (properties : Option (List String)) (os : List Object)
    → ids_of (project properties os) ≡ ids_of os
unfolding project
ids_of-project none os = refl
ids_of-project (some ps) [] = refl
ids_of-project (some ps) ((i, m) ∷ os) = ap (λ l. i ∷ l) (ids_of-project (some ps) os)

length-project :
    (properties : Option (List String)) (os : List Object)
    → length (project properties os) ≡ length os
unfolding project
length-project none os = refl
length-project (some ps) os = length-map _ os

project-IsPartition :
    (resolve : String → String) (by_id : Dict String Fields) (ids : List String)
    (properties : Option (List String)) (os : List Object) (not_found : List String)
    → IsPartition resolve by_id ids os not_found
    → IsPartition resolve by_id ids (project properties os) not_found
project-IsPartition resolve by_id ids properties os not_found p = record {
  found = λ i. ap (λ l. contains l i) (ids_of-project properties os) ∙ p.found i;
  missing = p.missing;
  once = omega (arith, length-project properties os, p.once);
}

-- What the response to `Mailbox/get` is, given the objects of all mailboxes.
abbrev pub Answers :
    (String → String) → List Object → Option (List String) → List Object → List String → Type 0
Answers resolve all none objects not_found = (ids_of objects ≡ ids_of all) × (not_found ≡ [])
Answers resolve all (some ids) objects not_found =
    IsPartition resolve (dict_of all []) ids objects not_found

select-Answers :
    (resolve : String → String) (all : List Object) (ids properties : Option (List String))
    → Answers resolve all ids
        (project properties (select_ids resolve all ids).0)
        (select_ids resolve all ids).1
unfolding select_ids
select-Answers resolve all none properties = (ids_of-project properties all, refl)
select-Answers resolve all (some ids) properties =
    project-IsPartition resolve (dict_of all []) ids properties _ _
      (partition_lem resolve (dict_of all []) ids)

-- The mailboxes that the server listed, with their counts, and the answers about them.
pub record IsAnswered {σ : Type 0} (req : Request σ) (args : GetArgs) (s : Ctx σ) (r : GetResponse)
    (t : Ctx σ) : Type 0 where
  pub swept : Swept
  pub all : List Object
  pub is_swept : or_server_fail (on_server (sweep_with_unseen req)) s ≡ (ok swept, t)
  pub is_all : all_mailboxes req swept ≡ ok all
  pub answers : Answers (resolve_id req t) all args.ids r.objects r.not_found

require_account-state :
    {σ : Type 0} (req : Request σ) (given : Option String) (s t : Ctx σ) (a : String)
    → require_account req given s ≡ (ok a, t)
    → s ≡ t
unfolding require_account
require_account-state req given s t a h = elim (Bool-cases (or_own req given == req.account_id)) [
  | inl b ↦ ap (λ p. p.1) (rw b at h)
  | inr b ↦ ap (λ p. p.1) (rw b at h)
]

module _ {σ : Type 0} (req : Request σ) (args : GetArgs) where
  get_response-IsAnswered :
      (account_id : String) (swept : Swept) (all : List Object) (s c : Ctx σ)
      → or_server_fail (on_server (sweep_with_unseen req)) s ≡ (ok swept, c)
      → all_mailboxes req swept ≡ ok all
      → Returns (IsAnswered req args s) (get_response req args account_id swept all c)
  unfolding get_response
  get_response-IsAnswered account_id (entries, statuses, unseen) all s c is_swept is_all = record {
    post = record {
      swept = (entries, statuses, unseen);
      all = all;
      is_swept = is_swept;
      is_all = is_all;
      answers = select-Answers (resolve_id req c) all args.ids args.properties;
    };
  }

  -- A response to `Mailbox/get` answers every id that was asked for exactly once: with an object
  -- under that id, where one of the mailboxes that the server listed has the id or the one that it
  -- redirects to, and as not found otherwise. Without ids it has the objects of all mailboxes.
  pub mailbox_get-IsAnswered :
      (s : Ctx σ) → Returns (IsAnswered req args s) (mailbox_get req args s)
  unfolding mailbox_get
  mailbox_get-IsAnswered s =
      >>=-Returns (require_account req args.account_id) _ s λ account_id s₁ own.
        >>=-Returns (or_server_fail (on_server (sweep_with_unseen req))) _ s₁ λ swept s₂ is_swept.
          >>=-Returns (lift (all_mailboxes req swept)) (get_response req args account_id swept) s₂
            λ all s₃ is_all.
              get_response-IsAnswered account_id swept all s s₃
                (rw (require_account-state req args.account_id s s₁ account_id own)
                  (is_swept ∙ ap (λ p. (ok swept, p.1)) is_all))
                (ap (λ p. p.0) is_all)
