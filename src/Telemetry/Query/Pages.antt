-- ===== src/Telemetry/Query/Pages.antt =====
-- What a client that reads page after page gets.
use mathlib.Core.Option
use vantage_core.Prelude.{
  ℕ, suc, zero, ◌≤◌, ◌<◌, ◌≡◌, refl, ap, true, false, List, [], ◌∷◌, ◌++◌, Option, none, some, Str,
  ltb, nat_eq, take, drop, take-append-drop, length, get_last?, Result, ok, err, All, arith,
  Bool-cases, inl, inr, sym, ◌∙◌, length-drop,
}
use vantage_core.Telemetry.Query.{
  Point, Page, QueryError, clamp, between, decode_token, page_of, resume, query, max_limit,
  selected,
}
use vantage_core.Telemetry.Query.Ascending.{
  StrictlyAscending, after, between-StrictlyAscending, between-later, after-between, last_of_take,
  take_long, take-take, longer,
}
use vantage_core.Telemetry.Query.Buckets.{
  All-selected, selected-StrictlyAscending, after-selected, Monotone, newest, selected-newest,
}

clamp-bounds : (limit : ℕ) → (0 < clamp limit) × (clamp limit ≤ max_limit)
unfolding clamp
clamp-bounds limit = ground arith

module _ (encode : ℕ → Str) (decode : Str → Option ℕ) where
  -- What a client does with a page: it asks for the next one while there is a token.
  abbrev go_on : (Str → Option (List Point)) → Result QueryError Page → Option (List Point)
  go_on ask (err _) = none
  go_on ask (ok (ps, [])) = some ps
  go_on ask (ok (ps, b ∷ token)) = Option.map (λ rest. ps ++ rest) (ask (b ∷ token))

  -- The rows of the pages from a token on, or `none` if there is an error, or still a token after this
  -- number of requests.
  unfoldable pub pages :
      Option (ℕ → ℕ) → ℕ → List Point → Str → ℕ → ℕ → ℕ → Str → Option (List Point)
  pages bucket zero rows agent from to limit token = none
  pages bucket (suc fuel) rows agent from to limit token =
      let ask = pages bucket fuel rows agent from to limit in
      go_on ask (query encode decode bucket rows agent from to limit token)

-- What the client relies on: a token that was handed out is read as its time.
pub record Tokens (encode : ℕ → Str) (decode : Str → Option ℕ) : Type 0 where
  pub decoded : (t : ℕ) → decode (encode t) ≡ some t
  pub non_empty : (t : ℕ) → 0 < length (encode t)

module _ (encode : ℕ → Str) (decode : Str → Option ℕ) (h : Tokens encode decode) where
  decode_token-encode : (t : ℕ) → decode_token encode decode (encode t) ≡ some t
  unfolding decode_token
  decode_token-encode t = by (encode t) refl
    where
      by : (s : Str) → s ≡ encode t → decode_token encode decode s ≡ some t
      by [] e = absurd (omega (arith, h.non_empty t, ap length e))
      by (b ∷ s) e = rw e (h.decoded t)

  page_of_last :
      (n : ℕ) (l : List Point)
      → ltb n (length (take (suc n) l)) ≡ false
      → page_of encode decode n (take (suc n) l) ≡ (l, [])
  unfolding page_of
  page_of_last n l e = rw (page_of, e) (ap (λ x. (x, [])) (take_long n l (ground arith)))

  page_of_more :
      (n : ℕ) (l : List Point) (p : Point)
      → ltb n (length (take (suc n) l)) ≡ true
      → get_last? (take n l) ≡ some p
      → page_of encode decode n (take (suc n) l) ≡ (take n l, encode p.time)
  unfolding page_of
  page_of_more n l p e g = rw (page_of, e, take-take n l, g) refl

  go_on_more :
      (ask : Str → Option (List Point)) (ps rest : List Point) (t : Str)
      → 0 < length t
      → ask t ≡ some rest
      → go_on encode decode ask (ok (ps, t)) ≡ some (ps ++ rest)
  go_on_more ask ps rest [] h e = absurd (omega arith)
  go_on_more ask ps rest (b ∷ t) h e = ap (Option.map (λ xs. ps ++ xs)) e

  go_on-page_of :
      (ask : Str → Option (List Point)) (m b : ℕ) (l : List Point)
      → StrictlyAscending l
      → All (λ q. b < q.time) l
      → ((p : Point)
          → b < p.time
          → after p.time l ≡ drop (suc m) l
          → suc m < length l
          → ask (encode p.time) ≡ some (drop (suc m) l))
      → go_on encode decode ask (ok (page_of encode decode (suc m) (take (suc (suc m)) l))) ≡ some l
  go_on-page_of ask m b l a c k = elim (Bool-cases (ltb (suc m) (length (take (suc (suc m)) l)))) [
    | inr e ↦ rw (page_of_last (suc m) l e) refl
    | inl e ↦
        let long = longer (suc m) l (ground arith) in
        let (p, g, d, f) = last_of_take m b l a c (omega (arith, long)) in
        rw (page_of_more (suc m) l p e g) (
          go_on_more ask (take (suc m) l) (drop (suc m) l) (encode p.time) (h.non_empty p.time)
            (k p d f long)
          ∙ ap some (take-append-drop (suc m) l))
  ]

  resume-later : (from t p : ℕ) → resume encode decode from t < p → resume encode decode from p ≡ p
  resume-later from t p g = ground arith

  query_first :
      (bucket : Option (ℕ → ℕ)) (rows : List Point) (agent : Str) (from to limit : ℕ) (token : Str)
      (t : ℕ)
      → 0 < length agent
      → decode_token encode decode token ≡ some t
      → query encode decode bucket rows agent from to limit token
        ≡ ok (
            page_of encode decode (clamp limit) (
              take
                (suc (clamp limit))
                (selected bucket (between (resume encode decode from t) to rows))))
  unfolding query
  query_first bucket rows agent from to limit token t n d =
      let some_agent : nat_eq (length agent) 0 ≡ false = ground arith in
      rw (query, some_agent, d) refl

  abbrev Reads : Option (ℕ → ℕ) → ℕ → List Point → Str → ℕ → ℕ → ℕ → Type 0
  Reads bucket fuel rows agent from to limit =
      (token : Str) (t : ℕ)
      → decode_token encode decode token ≡ some t
      → length (selected bucket (between (resume encode decode from t) to rows)) < fuel
      → pages encode decode bucket fuel rows agent from to limit token
        ≡ some (selected bucket (between (resume encode decode from t) to rows))

  Reads-suc :
      (bucket : Option (ℕ → ℕ)) (fuel : ℕ) (rows : List Point) (agent : Str) (from to limit : ℕ)
      → StrictlyAscending rows
      → 0 < length agent
      → Reads bucket fuel rows agent from to limit
      → Reads bucket (suc fuel) rows agent from to limit
  unfolding pages
  Reads-suc bucket fuel rows agent from to limit a n ih token t d f =
      rw (query_first bucket rows agent from to limit token t n d)
        (at (clamp limit) (clamp-bounds limit).0)
    where
      r : ℕ
      r = resume encode decode from t

      l : List Point
      l = selected bucket (between r to rows)

      ascending : StrictlyAscending (between r to rows)
      ascending = between-StrictlyAscending r to rows a

      next :
          (m : ℕ) (p : Point)
          → r < p.time
          → after p.time l ≡ drop (suc m) l
          → suc m < length l
          → pages encode decode bucket fuel rows agent from to limit (encode p.time)
            ≡ some (drop (suc m) l)
      next m p g e lt =
          let same = resume-later from t p.time g in
          let rest : selected bucket (between p.time to rows) ≡ drop (suc m) l =
            ap (selected bucket) (sym (after-between p.time r to rows (omega arith)))
            ∙ sym (after-selected p.time bucket (between r to rows) ascending)
            ∙ e in
          let fewer : length (selected bucket (between (resume encode decode from p.time) to rows))
              < fuel =
            rw (same, rest) (omega (arith, length-drop (suc m) l)) in
          ih (encode p.time) p.time (decode_token-encode p.time) fewer
          ∙ ap (λ x. some (selected bucket (between x to rows))) same
          ∙ ap some rest

      at :
          (n : ℕ)
          → 0 < n
          → go_on encode decode
              (pages encode decode bucket fuel rows agent from to limit)
              (ok (page_of encode decode n (take (suc n) l)))
            ≡ some l
      at zero x = absurd (omega arith)
      at (suc m) x =
          go_on-page_of (pages encode decode bucket fuel rows agent from to limit) m r l
            (selected-StrictlyAscending bucket (between r to rows) ascending)
            (All-selected (λ q. r < q.time) bucket (between r to rows) (between-later r to rows))
            (next m)

  pages-Reads :
      (bucket : Option (ℕ → ℕ)) (fuel : ℕ) (rows : List Point) (agent : Str) (from to limit : ℕ)
      → StrictlyAscending rows
      → 0 < length agent
      → Reads bucket fuel rows agent from to limit
  pages-Reads bucket zero rows agent from to limit a n = λ token t d f. absurd (omega arith)
  pages-Reads bucket (suc fuel) rows agent from to limit a n =
      Reads-suc bucket fuel rows agent from to limit a n
        (pages-Reads bucket fuel rows agent from to limit a n)

  -- Where no two rows of an agent have the same time: a client that asks for the first page, and then
  -- for the next one as long as it gets a token, has read exactly the rows between the two times, or with
  -- buckets those of them that are the newest of their bucket, each once and in order, whatever the limit
  -- and wherever a page ends. No answer is an error, and it has got an answer without a token by the time
  -- it has asked once more than it reads rows.
  pub pages-newest :
      (bucket : Option (ℕ → ℕ)) (rows : List Point) (agent : Str) (from to limit : ℕ)
      → Monotone bucket
      → StrictlyAscending rows
      → 0 < length agent
      → let l = newest bucket (between from to rows) in
        pages encode decode bucket (suc (length l)) rows agent from to limit [] ≡ some l
  unfolding decode_token
  pages-newest bucket rows agent from to limit m a n =
      let l = between from to rows in
      let same = selected-newest bucket l m (between-StrictlyAscending from to rows a) in
      pages-Reads bucket (suc (length (newest bucket l))) rows agent from to limit a n [] 0 refl
        (rw same (omega arith))
      ∙ ap some same
