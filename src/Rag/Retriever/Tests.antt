-- ===== src/Rag/Retriever/Tests.antt =====
-- Runs of the retriever at concrete inputs. The world is empty; an embedding is a number.
use syara_ai.Base.{
  ℕ, ◌+◌, ◌-◌, ◌*◌, ◌/◌, ◌≡◌, refl, true, none, some, [], ◌∷◌, map, ltb, leb, Text, codes,
  text_equality, lookup, insert,
}
use syara_ai.Base.{ℤ}
use syara_ai.Rag.Chunk.{Float, RetrievedChunk}
use syara_ai.Base.{sort_slice, insert, lookup}
use syara_ai.Rag.Retriever.{fuse, add_results}
use syara_ai.Rag.Retriever.Search.{
  hybrid, RetrievalOptions, RetrieverConfig, Backend, retrieve, without_source,
}

abbrev number : Float ℕ
number = record {
  greater = λ a b. ltb b a;
  at_least = λ a b. leb b a;
  two_places = λ n. [];
  quotient = λ a b. a / b;
}

abbrev chunk : Text → Text → RetrievedChunk ℕ
chunk id standard = record {
  id = id;
  document_id = codes "d";
  content = [];
  page_number = 1;
  section_title = [];
  similarity = 50;
  source_type = codes "aaoifi";
  document_title = [];
  category = [];
  standard_num = standard;
}

-- The vector search filters by the standard; the keyword search is not told of it.
abbrev backend : Backend ℕ ℕ Unit
backend = record {
  search = λ query w. (some (chunk (codes "a") query.filters.standard_number ∷ []), w);
  keyword_search = λ query opts w. (some (chunk (codes "b") (codes "SS 9") ∷ []), w);
  embed = λ query w. (some 1, w);
  get_by_id = λ id w. (some none, w);
  cached = λ query w. (none, w);
  cache = λ query e w. w;
}

abbrev config : RetrieverConfig ℕ
config = record {
  default_top_k = 10;
  default_min_score = 50;
  enable_hybrid_search = true;
  cache_enabled = true;
}

abbrev options : RetrievalOptions ℕ
options = record {
  top_k = ℤ.pos 5;
  min_score = 0;
  search_type = none;
  source_type = codes "aaoifi";
  categories = [];
  standard_number = codes "SS 8";
  date_range = [];
  document_ids = [];
}

-- A retrieval of one standard gives a chunk of another, which the keyword search found.
standard_ignored :
    let r =
      (retrieve number 0
        (λ x. x * 4 / 5)
        config
        backend
        (λ i. 70 - i)
        (λ i. 30 - i)
        (λ x. x)
        (λ a b. a + b)
        (codes "q")
        options
        tt).0 in
    (map (λ (c : RetrievedChunk ℕ). c.standard_num) r.chunks ≡ codes "SS 8" ∷ codes "SS 9" ∷ [])
    × (r.search_type ≡ hybrid)
unfolding retrieve sort_slice fuse add_results insert lookup
standard_ignored = (refl, refl)

-- At a limit of 0 one chunk is kept.
one_too_many :
    without_source number 0
      (λ x. x)
      config
      backend
      (codes "a")
      0
      (chunk (codes "b") [] ∷ chunk (codes "c") [] ∷ [])
    ≡ chunk (codes "b") [] ∷ []
unfolding without_source
one_too_many = refl
