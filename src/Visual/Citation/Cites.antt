-- ===== src/Visual/Citation/Cites.antt =====
-- internal/visual/citation_builder.go: the citations of a list of chunks.
use syara_ai.Base.{
  length, ℕ, suc, ◌+◌, ◌≡◌, refl, sym, ap, ◌∙◌, Bool, true, false, List, [], ◌∷◌, ◌++◌, map, All,
  Text, text_equality, append-nil, ap₂,
}
use syara_ai.Base.{
  values, flatten, flatten-Perm, Perm-of_eq, sort_slice, sort_slice-Perm, sort_slice-IsSorted,
  IsSorted, Perm, ℤ, ap₂,
}
use mathlib.Core.List.Perm
use mathlib.Core.List.{length as list_length, map-append}
use syara_ai.Rag.Chunk.{Float}
use syara_ai.Visual.Snippet.{create_snippet}
use syara_ai.Visual.Model.{Citation, CitationBuilderConfig, CitedChunk, Media, SourceInfo}
use syara_ai.Visual.Citation.{build_source_info}
use syara_ai.Visual.Citation.Pages.{group_from-Perm}
use syara_ai.Visual.Citation.Groups.{
  PageKey, Groups, page_equality, group_chunks_by_page, renumber, build_chunk_citation, cite_chunks,
  process_page_group, process_groups, build_citations, combined_highlight,
}

-- What a citation says of its chunk, all but the images and the links.
abbrev pub said : {F : Type 0} → Citation F → Text × Text × SourceInfo × F
said c = (c.chunk_id, c.content_snippet, c.source, c.relevance)

abbrev pub to_say : {F : Type 0} → ℤ → CitedChunk F → Text × Text × SourceInfo × F
to_say max c =
    (c.chunk.id, create_snippet max c.chunk.content, build_source_info c, c.chunk.similarity)

said-renumber :
    {F : Type 0} (n : ℕ) (cs : List (Citation F)) → map said (renumber n cs) ≡ map said cs
unfolding renumber
said-renumber n [] = refl
said-renumber n (c ∷ cs) = ap (◌∷◌ (said c)) (said-renumber (suc n) cs)

-- The numbers from `n` on, one for each element.
abbrev pub count_up : {A : Type 0} → ℕ → List A → List ℕ
count_up n [] = []
count_up n (x ∷ xs) = n ∷ count_up (suc n) xs

-- It depends on the length alone, here the library's.
count_up-length :
    {A B : Type 0} (n : ℕ) (xs : List A) (ys : List B)
    → list_length xs ≡ list_length ys
    → count_up n xs ≡ count_up n ys
count_up-length n [] [] e = refl
count_up-length n [] (y ∷ ys) e = absurd cc
count_up-length n (x ∷ xs) [] e = absurd cc
count_up-length n (x ∷ xs) (y ∷ ys) e = ap (◌∷◌ n) (count_up-length (suc n) xs ys cc)

count_up-map :
    {A B : Type 0} (f : A → B) (n : ℕ) (xs : List A) → count_up n (map f xs) ≡ count_up n xs
count_up-map f n [] = refl
count_up-map f n (x ∷ xs) = ap (◌∷◌ n) (count_up-map f (suc n) xs)

numbers-renumber :
    {F : Type 0} (n : ℕ) (cs : List (Citation F))
    → map (λ (c : Citation F). c.citation_number) (renumber n cs) ≡ count_up n cs
unfolding renumber
numbers-renumber n [] = refl
numbers-renumber n (c ∷ cs) = ap (◌∷◌ n) (numbers-renumber (suc n) cs)

module _ {F W : Type 0} (float : Float F) (zero_f : F) (media : Media F W)
    (config : CitationBuilderConfig) where
  said-cite_chunks :
      (chunks : List (CitedChunk F)) (query_id : Text) (n : ℕ) (combined : Text) (w : W)
      → map said (cite_chunks float zero_f media config chunks query_id n combined w).0
        ≡ map (to_say config.snippet_max_length) chunks
  unfolding cite_chunks build_chunk_citation
  said-cite_chunks [] query_id n combined w = refl
  said-cite_chunks (c ∷ chunks) query_id n combined w =
      ap (◌∷◌ (to_say config.snippet_max_length c)) (
        said-cite_chunks chunks query_id (suc n) combined
          (build_chunk_citation float zero_f media config c query_id n combined w).1)

  said-process_page_group :
      (key : PageKey) (chunks : List (CitedChunk F)) (query_id : Text) (n : ℕ) (w : W)
      → map said (process_page_group float zero_f media config key chunks query_id n w).0
        ≡ map (to_say config.snippet_max_length) chunks
  unfolding process_page_group
  said-process_page_group key chunks query_id n w =
      let (combined, w') = combined_highlight float zero_f media config key chunks query_id n w in
      said-cite_chunks chunks query_id n combined w'

  said-process_groups :
      (groups : Groups F) (query_id : Text) (n : ℕ) (w : W)
      → map said (process_groups float zero_f media config groups query_id n w).0
        ≡ map (to_say config.snippet_max_length) (flatten (values groups))
  unfolding process_groups
  said-process_groups [] query_id n w = refl
  said-process_groups ((key, chunks) ∷ groups) query_id n w =
      let page = process_page_group float zero_f media config key chunks query_id n w in
      let rest =
        process_groups float zero_f media config groups query_id (n + length page.0) page.1 in
      map-append said page.0 rest.0
      ∙ ap₂ (λ xs ys. xs ++ ys) (said-process_page_group key chunks query_id n w)
          (said-process_groups groups query_id (n + length page.0) page.1)
      ∙ sym (map-append (to_say config.snippet_max_length) chunks (flatten (values groups)))

  said-unsorted :
      (range : Groups F → Groups F) (chunks : List (CitedChunk F)) (query_id : Text) (w : W)
      → ((groups : Groups F) → Perm (range groups) groups)
      → Perm
          (map said
            (process_groups float zero_f media config
              (range (group_chunks_by_page chunks))
              query_id
              1
              w).0)
          (map (to_say config.snippet_max_length) chunks)
  unfolding group_chunks_by_page Perm.map
  said-unsorted range chunks query_id w ranges =
      let groups = group_chunks_by_page chunks in
      Perm.trans (Perm-of_eq (said-process_groups (range groups) query_id 1 w)) (
        Perm.map (to_say config.snippet_max_length) (
          Perm.trans
            (flatten-Perm (Perm.map (λ (p : PageKey × List (CitedChunk F)). p.1) (ranges groups)))
            (Perm.trans (group_from-Perm chunks []) (Perm-of_eq (append-nil chunks)))))

  -- The order of `sort.Slice` in `BuildCitations`.
  abbrev pub more_relevant : Citation F → Citation F → Bool
  more_relevant a b = float.greater a.relevance b.relevance

  renumber-All :
      (x : Citation F) (n : ℕ) (cs : List (Citation F))
      → All (λ z. more_relevant z x ≡ false) cs
      → All (λ z. more_relevant z x ≡ false) (renumber n cs)
  unfolding renumber
  renumber-All x n [] h = tt
  renumber-All x n (c ∷ cs) (p, h) = (p, renumber-All x (suc n) cs h)

  renumber-IsSorted :
      (n : ℕ) (cs : List (Citation F))
      → IsSorted more_relevant cs
      → IsSorted more_relevant (renumber n cs)
  unfolding renumber
  renumber-IsSorted n [] h = tt
  renumber-IsSorted n (c ∷ cs) (p, h) =
      (renumber-All (record c { citation_number = n }) (suc n) cs p, renumber-IsSorted (suc n) cs h)

  -- Citations of chunks: one of each, with the chunk's identifier, snippet, source and relevance,
  -- numbered from 1 on, none more relevant than an earlier one.
  pub Cites : List (CitedChunk F) → List (Citation F) → Type 0
  Cites chunks cs =
      Perm (map said cs) (map (to_say config.snippet_max_length) chunks)
      × (map (λ (c : Citation F). c.citation_number) cs ≡ count_up 1 chunks)
      × IsSorted more_relevant cs

  finish-Cites :
      (chunks : List (CitedChunk F)) (cs : List (Citation F))
      → ((a b : F) → float.greater a b ≡ true → float.greater b a ≡ false)
      → ((a b c : F)
          → float.greater c b ≡ false
          → float.greater b a ≡ false
          → float.greater c a ≡ false)
      → Perm (map said cs) (map (to_say config.snippet_max_length) chunks)
      → Cites chunks (renumber 1 (sort_slice more_relevant cs))
  unfolding Cites Perm.map
  finish-Cites chunks cs asym trans all_said =
      let sorted = sort_slice more_relevant cs in
      let said_all : Perm (map said sorted) (map (to_say config.snippet_max_length) chunks) =
        Perm.trans (Perm.map said (sort_slice-Perm more_relevant cs)) all_said in
      (
        Perm.trans (Perm-of_eq (said-renumber 1 sorted)) said_all,
        numbers-renumber 1 sorted
            ∙ (sym (count_up-map said 1 sorted)
                ∙ count_up-length 1 (map said sorted)
                    (map (to_say config.snippet_max_length) chunks) (Perm.length-eq said_all)
                ∙ count_up-map (to_say config.snippet_max_length) 1 chunks),
        renumber-IsSorted 1 sorted (
            sort_slice-IsSorted more_relevant (λ a b. asym a.relevance b.relevance)
              (λ a b c. trans a.relevance b.relevance c.relevance) cs),
      )

  -- Whatever order Go ranges over the map of pages in, the citations are one of each chunk, with its
  -- identifier, snippet, source and relevance, whether storage and the drawing succeed or not; their
  -- numbers run from 1 on, and none is more relevant than an earlier one, where the order of the
  -- similarities is asymmetric and negatively transitive.
  pub build_citations-Cites :
      (range : Groups F → Groups F) (chunks : List (CitedChunk F)) (query_id : Text) (w : W)
      → ((groups : Groups F) → Perm (range groups) groups)
      → ((a b : F) → float.greater a b ≡ true → float.greater b a ≡ false)
      → ((a b c : F)
          → float.greater c b ≡ false
          → float.greater b a ≡ false
          → float.greater c a ≡ false)
      → Cites chunks (build_citations float zero_f media config range chunks query_id w).0
  unfolding build_citations
  build_citations-Cites range [] query_id w ranges asym trans =
      unfold Cites in (Perm.refl [], refl, tt)
  build_citations-Cites range (c ∷ chunks) query_id w ranges asym trans =
      finish-Cites (c ∷ chunks)
        (process_groups float zero_f media config (range (group_chunks_by_page (c ∷ chunks)))
          query_id 1 w).0
        asym trans (said-unsorted range (c ∷ chunks) query_id w ranges)
