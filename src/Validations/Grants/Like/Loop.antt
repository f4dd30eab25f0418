-- ===== src/Validations/Grants/Like/Loop.antt =====
-- The loop of `likePatternMatches` decides whether a name matches a pattern.
use dbsgomysql.Prelude.{
  Bool, List, Option, Str, [], arith, false, inl, inr, length, nat_eq, none, refl, some, subst, suc,
  true, zero, ℕ, ◌*◌, ◌+◌, ◌<◌, ◌↔◌, ◌∷◌, ◌≡◌, ◌≤◌, ◌⊎◌,
}
use dbsgomysql.Golang.Utf8.{runes}
use dbsgomysql.Validations.Grants.Like.{
  Onward, fall_back, next_round, Star, Round, matched, wildcard, mismatch, round, only_percent,
  like_loop, like_fuel, like_runes, like_pattern_matches,
}
use dbsgomysql.Validations.Grants.Like.Rounds.{Means, round-Means, only_percent_iff}
use dbsgomysql.Validations.Grants.Like.Spec.{
  run, single, elements, Admits, Like, run-zero, run-more, run-cons, run-nil, run-run, run-single,
  single_inv,
}

-- The run ended with an answer, and the answer is right about `G`.
abbrev pub Answers : Type 0 → Option Bool → Type 0
Answers G r = (b : Bool) × (r ≡ some b) × ((b ≡ true) ↔ G)

-- What may still succeed when the current attempt fails: the last wildcard takes more.
abbrev Retry : Star → Type 0
Retry none = ⊥
Retry (some (after, [])) = ⊥
Retry (some (after, d ∷ tried)) = Like (run ∷ elements after) tried

abbrev Fits : ℕ → ℕ → List ℕ → Star → Type 0
Fits m k name none = length name ≤ m
Fits m k name (some (after, tried)) =
    (length name ≤ length tried) × (length tried ≤ m) × (length after < k)

Fits-tail :
    (m k c : ℕ) (name : List ℕ) (star : Star) → Fits m k (c ∷ name) star → Fits m k name star
Fits-tail m k c name none h = omega arith
Fits-tail m k c name (some (after, tried)) h = omega arith

Fits-le : (m k : ℕ) (name : List ℕ) (star : Star) → Fits m k name star → length name ≤ m
Fits-le m k name none h = h
Fits-le m k name (some (after, tried)) h = omega arith

-- Trying the pattern behind a wildcard here, or later, is trying the wildcard.
Retry-Like :
    (after name : List ℕ)
    → Like (elements after) name ⊎ Retry (some (after, name))
    → Like (run ∷ elements after) name
Retry-Like after name (inl h) = run-zero (elements after) name h
Retry-Like after [] (inr r) = absurd r
Retry-Like after (c ∷ name) (inr r) = run-more (elements after) c name r

Like-Retry :
    (after name : List ℕ)
    → Like (run ∷ elements after) name
    → Like (elements after) name ⊎ Retry (some (after, name))
Like-Retry after [] h = inl (run-nil (elements after) h)
Like-Retry after (c ∷ name) h = run-cons (elements after) c name h

-- `G` is the question asked at the start, and every pattern in play is shorter than `k`.
module _ (G : Type 0) (k : ℕ) where
  record Inv (fuel m : ℕ) (p name : List ℕ) (star : Star) : Type 0 where
    sound : Like (elements p) name ⊎ Retry star → G
    complete : G → Like (elements p) name ⊎ Retry star
    covered : Retry star → Like (run ∷ elements p) name
    fits : Fits m k name star
    short : length p < k
    enough : m * k + length p < fuel

  Inv-matched :
      {fuel m : ℕ} {p p' name : List ℕ} {c : ℕ} {star : Star} (t : Option ℕ)
      → Inv (suc fuel) m p (c ∷ name) star
      → elements p ≡ single t ∷ elements p'
      → Admits t c
      → length p' < length p
      → Inv fuel m p' name star
  Inv-matched {m} {p} {p'} {name} {c} {star} t i e a l = record {
    sound = elim [ inl h ↦ i.sound (inl (rw e (c, name, refl, a, h))) | inr r ↦ i.sound (inr r) ];
    complete = λ g. elim (i.complete g) [
      | inl h ↦ inl (single_inv (elements p') t c name (subst (λ es. Like es (c ∷ name)) e h)).1
      | inr r ↦ inr r
    ];
    covered = λ r.
        run-single (elements p') t c name
          (subst (λ es. Like (run ∷ es) (c ∷ name)) e (i.covered r));
    fits = Fits-tail m k c name star i.fits;
    short = omega arith;
    enough = omega arith;
  }

  Inv-wildcard :
      {fuel m : ℕ} {p p' name : List ℕ} {c : ℕ} {star : Star}
      → Inv (suc fuel) m p (c ∷ name) star
      → elements p ≡ run ∷ elements p'
      → length p' < length p
      → Inv fuel m p' (c ∷ name) (some (p', c ∷ name))
  Inv-wildcard {m} {p} {p'} {name} {c} {star} i e l = record {
    sound = λ h. i.sound (inl (rw e (Retry-Like p' (c ∷ name) h)));
    complete = λ g. elim (i.complete g) [
      | inl h ↦ run-cons (elements p') c name (subst (λ es. Like es (c ∷ name)) e h)
      | inr r ↦ run-cons (elements p') c name (
          run-run (elements p') (c ∷ name)
            (subst (λ es. Like (run ∷ es) (c ∷ name)) e (i.covered r)))
    ];
    covered = λ r. run-more (elements p') c name r;
    fits = (omega arith, Fits-le m k (c ∷ name) star i.fits, omega arith);
    short = omega arith;
    enough = omega arith;
  }

  Inv-retry :
      {fuel m : ℕ} {p name after tried : List ℕ} {c d : ℕ}
      → Inv (suc fuel) (suc m) p (c ∷ name) (some (after, d ∷ tried))
      → ¬ Like (elements p) (c ∷ name)
      → Inv fuel m after tried (some (after, tried))
  Inv-retry {m} {p} {name} {after} {tried} {c} {d} i n = record {
    sound = λ h. i.sound (inr (Retry-Like after tried h));
    complete = λ g. elim (i.complete g) [ inl h ↦ absurd (n h) | inr r ↦ Like-Retry after tried r ];
    covered = λ r. Retry-Like after tried (inr r);
    fits = omega arith;
    short = i.fits.2;
    enough = omega arith;
  }

  fall_back-Answers :
      {fuel m c : ℕ} {p name : List ℕ} (onward : Onward) (star : Star)
      → ((m' : ℕ) (p' n' : List ℕ) (star' : Star)
          → Inv fuel m' p' n' star'
          → Answers G (onward p' n' star'))
      → Inv (suc fuel) m p (c ∷ name) star
      → ¬ Like (elements p) (c ∷ name)
      → Answers G (fall_back onward star)
  unfolding fall_back
  fall_back-Answers onward none ih i n = (
    false,
    refl,
    (
      λ h. absurd (ground arith),
      λ g. elim (i.complete g) [ inl h ↦ absurd (n h) | inr r ↦ absurd r ],
    ),
  )
  fall_back-Answers onward (some (after, [])) ih i n = absurd (omega arith)
  fall_back-Answers {m = zero} onward (some (after, d ∷ tried)) ih i n = absurd (omega arith)
  fall_back-Answers {m = suc m} onward (some (after, d ∷ tried)) ih i n =
      ih m after tried (some (after, tried)) (Inv-retry i n)

  next_round-Answers :
      {fuel m c : ℕ} {p name : List ℕ} (onward : Onward) (r : Round) (star : Star)
      → ((m' : ℕ) (p' n' : List ℕ) (star' : Star)
          → Inv fuel m' p' n' star'
          → Answers G (onward p' n' star'))
      → Inv (suc fuel) m p (c ∷ name) star
      → Means p c name r
      → Answers G (next_round onward r (c ∷ name) star)
  unfolding next_round
  next_round-Answers {m} {name} onward (matched p' n') star ih i (t, e, same, a, l) =
      rw same (ih m p' name star (Inv-matched t i e a l))
  next_round-Answers {m} onward (wildcard p') star ih i (e, l) =
      ih m p' _ (some (p', _)) (Inv-wildcard i e l)
  next_round-Answers onward mismatch star ih i n = fall_back-Answers onward star ih i n

  like_loop-Answers :
      (fuel m : ℕ) (p name : List ℕ) (star : Star)
      → Inv fuel m p name star
      → Answers G (like_loop fuel p name star)
  unfolding like_loop
  like_loop-Answers zero m p name star i = absurd (omega arith)
  like_loop-Answers (suc fuel) m p [] star i = (
    only_percent p,
    refl,
    (
      λ h. i.sound (inl ((only_percent_iff p).0 h)),
      λ g.
          (only_percent_iff p).1
            (elim (i.complete g) [ inl h ↦ h | inr r ↦ run-nil (elements p) (i.covered r) ]),
    ),
  )
  like_loop-Answers (suc fuel) m p (c ∷ name) star i =
      next_round-Answers (like_loop fuel) (round p c name) star (like_loop-Answers fuel) i
        (round-Means p c name)

-- The loop ends within its fuel, and answers whether the name matches the pattern.
pub like_runes-Answers : (p name : List ℕ) → Answers (Like (elements p) name) (like_runes p name)
unfolding like_runes
like_runes-Answers p name =
    like_loop-Answers (Like (elements p) name) (length p + 1) (like_fuel p name) (length name) p
      name none
      (record {
        sound = elim [ inl h ↦ h | inr r ↦ absurd r ];
        complete = inl;
        covered = λ r. absurd r;
        fits = omega arith;
        short = omega arith;
        enough = grind arith;
      })

-- `likePatternMatches` answers true exactly for the names that match the pattern: cut into pieces,
-- one for each `%`, `_`, escaped or plain character of the pattern.
pub like_pattern_matches_iff :
    (pattern name : Str)
    → (like_pattern_matches pattern name ≡ true) ↔ Like (elements (runes pattern)) (runes name)
unfolding like_pattern_matches
like_pattern_matches_iff pattern name =
    let (b, e, h) = like_runes-Answers (runes pattern) (runes name) in
    rw (e, like_pattern_matches) h
