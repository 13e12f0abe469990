-- ===== src/Visual/Citation.antt =====
-- internal/visual/citation_builder.go: the citation of one chunk. Storage, the drawing of highlights
-- and crops, the decoding of JSON and the clock are a record of calls; a call's error, which the code
-- only logs, is `none`.
pub mod Groups
pub mod Pages
pub mod Cites
pub mod Select
pub mod Tests
use syara_ai.Base.{
  join, ℕ, zero, suc, ◌+◌, ◌-◌, ◌*◌, ◌/◌, ◌≤◌, ◌<◌, ◌≡◌, ◌≢◌, ◌⊎◌, inl, inr, refl, sym, ap, ◌∙◌,
  subst, Bool, true, false, ◌&&◌, ◌||◌, not, Option, none, some, List, [], ◌∷◌, ◌++◌, map, ◌==◌,
  ltb, leb, if◌then◌else◌, Bool-cases, Option-cases, length, take, drop, get_elem?, All, Text,
  codes, text_eq, text_eq_iff, text_equality, arith, Dict, lookup, insert, append_assoc, append-nil,
}
use syara_ai.Base.{ℤ, decimal}
use syara_ai.Rag.Chunk.{Float, RetrievedChunk}
use syara_ai.Visual.Model.{
  SourceInfo, BoundingBox, VisualCitation, DownloadLinks, Citation, CitationBuilderConfig,
  CitedChunk, RegionWithLabel, Media, default_citation_builder_config,
}
use syara_ai.Visual.Snippet.{create_snippet}

abbrev pub is_empty : Text → Bool
is_empty [] = true
is_empty (c ∷ s) = false

-- The URL that a call gives, or the empty one.
abbrev pub or_empty : {W : Type 0} → Option Text × W → Text × W
or_empty (none, w) = ([], w)
or_empty (some url, w) = (url, w)

-- `filepath.Join` of clean elements: the empty ones are left out.
abbrev not_empty : List Text → List Text
not_empty [] = []
not_empty ([] ∷ parts) = not_empty parts
not_empty ((c ∷ s) ∷ parts) = (c ∷ s) ∷ not_empty parts

unfoldable pub build_original_path : Text → Text → Text
unfolding join
build_original_path source_type filename =
    join (not_empty (codes "originals" ∷ source_type ∷ filename ∷ [])) (codes "/")

unfoldable pub build_page_pdf_path : Text → ℕ → Text
unfolding decimal join
build_page_pdf_path document_id page_num =
    let file = codes "page-" ++ decimal page_num ++ codes ".pdf" in
    join (not_empty (codes "generated-pdfs" ∷ document_id ∷ file ∷ [])) (codes "/")

abbrev pub build_source_info : {F : Type 0} → CitedChunk F → SourceInfo
build_source_info c = record {
  source_type = c.chunk.source_type;
  document = c.chunk.document_title;
  section = c.chunk.section_title;
  page = c.chunk.page_number;
  standard_number = c.chunk.standard_num;
  category = c.chunk.category;
  effective_date = c.effective_date;
}

-- `zero` is the number 0.
module _ {F W : Type 0} (float : Float F) (zero : F) (media : Media F W)
    (config : CitationBuilderConfig) where
  unfoldable pub extract_bounding_box : CitedChunk F → Option (BoundingBox F)
  extract_bounding_box c = elim c.bounding_box [
    | none ↦ none
    | some json ↦ elim (media.decode_box json) [
      | none ↦ none
      | some box ↦
          if float.at_least zero box.width || float.at_least zero box.height then none else some box
    ]
  ]

  -- The URL of a path, where there is one.
  unfoldable pub url_of : Text → W → Text × W
  url_of [] w = ([], w)
  url_of (b ∷ path) w = or_empty (media.get_url (b ∷ path) w)

  -- The highlight of one chunk's region, labelled with its number.
  unfoldable pub highlight_of : CitedChunk F → BoundingBox F → Text → ℕ → W → Text × W
  unfolding decimal
  highlight_of c box query_id citation_num w =
      if config.generate_highlights && not (is_empty c.page_image_path)
      then or_empty (
          media.highlight_region c.page_image_path box (decimal citation_num) query_id c.chunk.id w)
      else ([], w)

  unfoldable pub crop_of : CitedChunk F → BoundingBox F → Text → W → Text × W
  crop_of c box query_id w =
      if config.generate_crops && not (is_empty c.page_image_path)
      then or_empty
          (media.crop_region c.page_image_path box config.crop_padding query_id c.chunk.id w)
      else ([], w)

  unfoldable pub build_visual_citation : CitedChunk F → Text → ℕ → W → VisualCitation F × W
  unfolding url_of extract_bounding_box highlight_of crop_of
  build_visual_citation c query_id citation_num w =
      let (thumbnail, w1) = url_of c.thumbnail_path w in
      let (full, w2) = url_of c.page_image_path w1 in
      elim (extract_bounding_box c) [
        | none ↦ (
          record {
            thumbnail_url = thumbnail;
            full_image_url = full;
            highlighted_url = [];
            cropped_url = [];
            highlight_region = none;
          },
          w2,
        )
        | some box ↦
            let (highlighted, w3) = highlight_of c box query_id citation_num w2 in
            let (cropped, w4) = crop_of c box query_id w3 in
            (
              record {
                thumbnail_url = thumbnail;
                full_image_url = full;
                highlighted_url = highlighted;
                cropped_url = cropped;
                highlight_region = some box;
              },
              w4,
            )
      ]

  -- A member of the metadata, or the empty text.
  unfoldable pub member : Text → Option Text → Text
  unfolding lookup
  member name none = []
  member name (some json) = elim (media.decode_metadata json) [
    | none ↦ []
    | some members ↦ elim (lookup name members) [ none ↦ [] | some value ↦ value ]
  ]

  unfoldable pub build_download_links : CitedChunk F → W → DownloadLinks × W
  unfolding build_original_path build_page_pdf_path member
  build_download_links c w =
      let path = build_original_path c.chunk.source_type (c.chunk.document_id ++ codes ".pdf") in
      let page_path = build_page_pdf_path c.chunk.document_id c.chunk.page_number in
      let (original, w1) = or_empty (media.get_url path w) in
      let (page, w2) : Text × W =
        if config.generate_page_pdfs && ltb 0 c.chunk.page_number
        then (let (there, w') = media.exists page_path w1 in
            if there then or_empty (media.get_url page_path w') else ([], w'))
        else ([], w1) in
      (
        record {
          original_pdf = original;
          page_pdf = page;
          direct_link = member (codes "direct_link") c.metadata;
          source_url = member (codes "source_url") c.metadata;
        },
        w2,
      )

  unfoldable pub build_single_citation : CitedChunk F → Text → ℕ → W → Citation F × W
  unfolding create_snippet build_visual_citation build_download_links
  build_single_citation c query_id citation_num w =
      let (id, w1) = media.new_id w in
      let (now, w2) = media.now w1 in
      let (visual, w3) = build_visual_citation c query_id citation_num w2 in
      let (links, w4) = build_download_links c w3 in
      (
        record {
          id = id;
          chunk_id = c.chunk.id;
          content_snippet = create_snippet config.snippet_max_length c.chunk.content;
          source = build_source_info c;
          visual = visual;
          download = links;
          relevance = c.chunk.similarity;
          citation_number = citation_num;
          created_at = now;
        },
        w4,
      )
