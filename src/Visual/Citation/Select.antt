-- ===== src/Visual/Citation/Select.antt =====
-- internal/visual/citation_builder.go: finding, sorting and filtering citations, and the citation of
-- a single chunk against that of a page's chunk.
use syara_ai.Base.{
  ℕ, ◌≡◌, refl, Bool, true, false, ◌&&◌, ◌||◌, Option, none, some, List, [], ◌∷◌, ◌==◌, ltb,
  if◌then◌else◌, Text, text_eq, text_equality,
}
use syara_ai.Base.{sort_slice}
use syara_ai.Rag.Chunk.{Float}
use syara_ai.Visual.Model.{Citation, CitationBuilderConfig, CitedChunk, Media}
use syara_ai.Visual.Citation.{build_single_citation, build_visual_citation}
use syara_ai.Visual.Citation.Groups.{build_chunk_citation, build_visual, highlighted}

-- `<` on strings.
abbrev pub text_less : Text → Text → Bool
text_less s [] = false
text_less [] (d ∷ t) = true
text_less (c ∷ s) (d ∷ t) = ltb c d || (c == d && text_less s t)

module _ {F : Type 0} where
  unfoldable pub get_citation_by_id : List (Citation F) → Text → Option (Citation F)
  get_citation_by_id [] id = none
  get_citation_by_id (c ∷ cs) id = if text_eq c.id id then some c else get_citation_by_id cs id

  unfoldable pub get_citation_by_chunk_id : List (Citation F) → Text → Option (Citation F)
  get_citation_by_chunk_id [] id = none
  get_citation_by_chunk_id (c ∷ cs) id =
      if text_eq c.chunk_id id then some c else get_citation_by_chunk_id cs id

  unfoldable pub sort_citations_by_page : List (Citation F) → List (Citation F)
  unfolding sort_slice
  sort_citations_by_page = sort_slice (λ a b.
      if text_eq a.source.document b.source.document
      then ltb a.source.page b.source.page
      else text_less a.source.document b.source.document)

  unfoldable pub filter_citations_by_source : List (Citation F) → Text → List (Citation F)
  filter_citations_by_source [] source_type = []
  filter_citations_by_source (c ∷ cs) source_type =
      let rest = filter_citations_by_source cs source_type in
      if text_eq c.source.source_type source_type then c ∷ rest else rest

  module _ (float : Float F) where
    unfoldable pub sort_citations_by_relevance : List (Citation F) → List (Citation F)
    unfolding sort_slice
    sort_citations_by_relevance = sort_slice (λ a b. float.greater a.relevance b.relevance)

    unfoldable pub filter_citations_by_min_relevance : List (Citation F) → F → List (Citation F)
    filter_citations_by_min_relevance [] min_relevance = []
    filter_citations_by_min_relevance (c ∷ cs) min_relevance =
        let rest = filter_citations_by_min_relevance cs min_relevance in
        if float.at_least c.relevance min_relevance then c ∷ rest else rest

-- Where a page has no combined highlight, its chunk gets the citation of a single chunk.
pub build_chunk_citation-single :
    {F W : Type 0} (float : Float F) (zero_f : F) (media : Media F W)
    (config : CitationBuilderConfig) (c : CitedChunk F) (query_id : Text) (n : ℕ) (w : W)
    → build_chunk_citation float zero_f media config c query_id n [] w
      ≡ build_single_citation float zero_f media config c query_id n w
unfolding build_chunk_citation build_single_citation build_visual build_visual_citation highlighted
build_chunk_citation-single float zero_f media config c query_id n w = refl
