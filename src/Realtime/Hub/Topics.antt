-- ===== src/Realtime/Hub/Topics.antt =====
-- internal/realtime/websocket.go: the topics of a query parameter.
use syara_ai.Base.{
  ◌≡◌, refl, ap, ◌∙◌, sym, true, false, List, [], ◌∷◌, ◌++◌, append_assoc, append-nil, all, not,
  ◌==◌, All, Text, codes, join, IsNonempty, arith,
}
use syara_ai.Realtime.Hub.{topics_from, split_topics}

-- A topic that can stand in the parameter: not empty, and without a comma.
abbrev pub IsTopic : Text → Type 0
IsTopic t = IsNonempty t × (all (λ c. not (c == b',')) t ≡ true)

topics_from-append :
    (cur t s : Text)
    → all (λ c. not (c == b',')) t ≡ true
    → topics_from cur (t ++ s) ≡ topics_from (cur ++ t) s
unfolding topics_from
topics_from-append cur [] s h = ap (λ d. topics_from d s) (sym (append-nil cur))
topics_from-append cur (c ∷ t) s h =
    let e : (c == b',') ≡ false = ground arith in
    rw (e, topics_from)
      (topics_from-append (cur ++ c ∷ []) t s (ground arith)
        ∙ ap (λ d. topics_from d s) (append_assoc cur (c ∷ []) t))

-- One topic, and what follows it at the end or behind a comma.
topics_from-last : (t : Text) → IsTopic t → topics_from [] t ≡ t ∷ []
unfolding topics_from
topics_from-last [] (h, k) = absurd cc
topics_from-last (c ∷ t) (h, k) =
    ap (topics_from []) (sym (append-nil (c ∷ t))) ∙ topics_from-append [] (c ∷ t) [] k

topics_from-comma :
    (t s : Text) → IsTopic t → topics_from [] (t ++ (b',' ∷ s)) ≡ t ∷ topics_from [] s
unfolding topics_from
topics_from-comma [] s (h, k) = absurd cc
topics_from-comma (c ∷ t) s (h, k) = topics_from-append [] (c ∷ t) (b',' ∷ s) k

-- Topics that are not empty and have no comma, joined by commas, are read back by `splitTopics`.
pub split_topics-join : (ts : List Text) → All IsTopic ts → split_topics (join ts (codes ",")) ≡ ts
unfolding split_topics join topics_from
split_topics-join [] h = refl
split_topics-join (t ∷ []) (h, hs) = topics_from-last t h
split_topics-join (t ∷ u ∷ ts) (h, hs) =
    topics_from-comma t (join (u ∷ ts) (codes ",")) h ∙ ap (◌∷◌ t) (split_topics-join (u ∷ ts) hs)
