-- ===== src/Visual/Citation/Groups.antt =====
-- internal/visual/citation_builder.go: the citations of all chunks, page by page. The order in which
-- Go ranges over the map of pages is the parameter `range`.
use syara_ai.Base.{
  ℕ, suc, ◌+◌, ◌≡◌, ap, ◌∙◌, subst, Bool, true, ◌&&◌, not, none, some, List, [], ◌∷◌, ◌++◌, ◌==◌,
  ltb, if◌then◌else◌, length, Text, text_eq, text_eq_iff, text_equality, arith, Dict, lookup,
  insert, ◌↔◌,
}
use syara_ai.Base.{decimal, Eq, sort_slice, ◌↔◌}
use syara_ai.Rag.Chunk.{Float}
use syara_ai.Visual.Snippet.{create_snippet}
use syara_ai.Visual.Model.{
  BoundingBox, Citation, CitationBuilderConfig, CitedChunk, Media, RegionWithLabel, VisualCitation,
}
use syara_ai.Visual.Citation.{
  is_empty, or_empty, build_source_info, extract_bounding_box, url_of, highlight_of, crop_of,
  build_download_links,
}

pub record PageKey : Type 0 where
  pub document_id : Text
  pub page_number : ℕ
  pub image_path : Text

abbrev same_page : PageKey → PageKey → Bool
same_page a b =
    text_eq a.document_id b.document_id
    && (a.page_number == b.page_number && text_eq a.image_path b.image_path)

same_page_refl : (a : PageKey) → same_page a a ≡ true
same_page_refl a =
    ground (arith, text_eq_iff a.document_id a.document_id, text_eq_iff a.image_path a.image_path)

same_page_sound : (a b : PageKey) → same_page a b ≡ true → a ≡ b
same_page_sound a b h =
    let document : a.document_id ≡ b.document_id =
      (text_eq_iff a.document_id b.document_id).0 (ground arith) in
    let page : a.page_number ≡ b.page_number = ground arith in
    let image : a.image_path ≡ b.image_path =
      (text_eq_iff a.image_path b.image_path).0 (ground arith) in
    ap (λ d. record a { document_id = d }) document
    ∙ ap (λ n. record b { page_number = n; image_path = a.image_path }) page
    ∙ ap (λ i. record b { image_path = i }) image

pub same_page_iff : (a b : PageKey) → (same_page a b ≡ true) ↔ (a ≡ b)
same_page_iff a b =
    (same_page_sound a b, λ e. subst (λ c. same_page a c ≡ true) e (same_page_refl a))

instance abbrev pub page_equality : Eq PageKey
page_equality = record { beq = same_page; beq_iff = same_page_iff }

abbrev pub Groups : Type 0 → Type 0
Groups F = Dict PageKey (List (CitedChunk F))

abbrev pub page_of : {F : Type 0} → CitedChunk F → PageKey
page_of c = record {
  document_id = c.chunk.document_id;
  page_number = c.chunk.page_number;
  image_path = c.page_image_path;
}

-- The chunks at a key, none where it is missing.
abbrev pub chunks_at : {F : Type 0} → PageKey → Groups F → List (CitedChunk F)
chunks_at key groups = elim (lookup key groups) [ none ↦ [] | some chunks ↦ chunks ]

unfoldable pub group_from : {F : Type 0} → List (CitedChunk F) → Groups F → Groups F
group_from [] groups = groups
group_from (c ∷ chunks) groups =
    group_from chunks (insert (page_of c) (chunks_at (page_of c) groups ++ c ∷ []) groups)

unfoldable pub group_chunks_by_page : {F : Type 0} → List (CitedChunk F) → Groups F
unfolding group_from lookup insert
group_chunks_by_page chunks = group_from chunks []

-- The numbers from `n` on, after sorting.
unfoldable pub renumber : {F : Type 0} → ℕ → List (Citation F) → List (Citation F)
renumber n [] = []
renumber n (c ∷ cs) = record c { citation_number = n } ∷ renumber (suc n) cs

module _ {F W : Type 0} (float : Float F) (zero_f : F) (media : Media F W)
    (config : CitationBuilderConfig) where
  -- A chunk without a box leaves its region as `make` made it.
  regions_from : ℕ → List (CitedChunk F) → List (RegionWithLabel F)
  unfolding extract_bounding_box decimal
  regions_from n [] = []
  regions_from n (c ∷ chunks) =
      elim (extract_bounding_box float zero_f media config c) [
        | none ↦ record {
          bounding_box = record {
            x = zero_f;
            y = zero_f;
            width = zero_f;
            height = zero_f;
            page_width = zero_f;
            page_height = zero_f;
          };
          label = [];
        }
        | some box ↦ record { bounding_box = box; label = decimal n }
      ]
      ∷ regions_from (suc n) chunks

  unfoldable pub combined_highlight : PageKey → List (CitedChunk F) → Text → ℕ → W → Text × W
  unfolding regions_from
  combined_highlight key chunks query_id start w =
      if config.generate_highlights && (not (is_empty key.image_path) && ltb 1 (length chunks))
      then or_empty
          (media.highlight_multiple_regions key.image_path (regions_from start chunks) query_id w)
      else ([], w)

  -- The highlighted image of one chunk: the page's, or where there is none its own.
  unfoldable pub highlighted : CitedChunk F → BoundingBox F → Text → ℕ → Text → W → Text × W
  unfolding highlight_of
  highlighted c box query_id n [] w = highlight_of float zero_f media config c box query_id n w
  highlighted c box query_id n (b ∷ combined) w = (b ∷ combined, w)

  unfoldable pub build_visual : CitedChunk F → Text → ℕ → Text → W → VisualCitation F × W
  unfolding url_of extract_bounding_box highlighted crop_of
  build_visual c query_id n combined w =
      let (thumbnail, w1) = url_of float zero_f media config c.thumbnail_path w in
      let (full, w2) = url_of float zero_f media config c.page_image_path w1 in
      elim (extract_bounding_box float zero_f media config c) [
        | none ↦ (
          record {
            thumbnail_url = thumbnail;
            full_image_url = full;
            highlighted_url = [];
            cropped_url = [];
            highlight_region = none;
          },
          w2,
        )
        | some box ↦
            let (url, w3) = highlighted c box query_id n combined w2 in
            let (cropped, w4) = crop_of float zero_f media config c box query_id w3 in
            (
              record {
                thumbnail_url = thumbnail;
                full_image_url = full;
                highlighted_url = url;
                cropped_url = cropped;
                highlight_region = some box;
              },
              w4,
            )
      ]

  unfoldable pub build_chunk_citation : CitedChunk F → Text → ℕ → Text → W → Citation F × W
  unfolding create_snippet build_visual build_download_links
  build_chunk_citation c query_id n combined w =
      let (id, w1) = media.new_id w in
      let (now, w2) = media.now w1 in
      let (visual, w3) = build_visual c query_id n combined w2 in
      let (links, w4) = build_download_links float zero_f media config c w3 in
      (
        record {
          id = id;
          chunk_id = c.chunk.id;
          content_snippet = create_snippet config.snippet_max_length c.chunk.content;
          source = build_source_info c;
          visual = visual;
          download = links;
          relevance = c.chunk.similarity;
          citation_number = n;
          created_at = now;
        },
        w4,
      )

  unfoldable pub cite_chunks : List (CitedChunk F) → Text → ℕ → Text → W → List (Citation F) × W
  unfolding build_chunk_citation
  cite_chunks [] query_id n combined w = ([], w)
  cite_chunks (c ∷ chunks) query_id n combined w =
      let (citation, w') = build_chunk_citation c query_id n combined w in
      let (citations, w'') = cite_chunks chunks query_id (suc n) combined w' in
      (citation ∷ citations, w'')

  -- No chunk's citation fails, and so no page does.
  unfoldable pub process_page_group :
      PageKey → List (CitedChunk F) → Text → ℕ → W → List (Citation F) × W
  unfolding combined_highlight cite_chunks
  process_page_group key chunks query_id start w =
      let (combined, w') = combined_highlight key chunks query_id start w in
      cite_chunks chunks query_id start combined w'

  unfoldable pub process_groups : Groups F → Text → ℕ → W → List (Citation F) × W
  unfolding process_page_group
  process_groups [] query_id n w = ([], w)
  process_groups ((key, chunks) ∷ groups) query_id n w =
      let (citations, w') = process_page_group key chunks query_id n w in
      let (others, w'') = process_groups groups query_id (n + length citations) w' in
      (citations ++ others, w'')

  unfoldable pub build_citations :
      (Groups F → Groups F) → List (CitedChunk F) → Text → W → List (Citation F) × W
  unfolding group_chunks_by_page process_groups sort_slice renumber
  build_citations range [] query_id w = ([], w)
  build_citations range (c ∷ chunks) query_id w =
      let (citations, w') =
        process_groups (range (group_chunks_by_page (c ∷ chunks))) query_id 1 w in
      (
        renumber 1
            (sort_slice (λ (a b : Citation F). float.greater a.relevance b.relevance) citations),
        w',
      )
