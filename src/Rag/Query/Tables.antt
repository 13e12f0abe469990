-- ===== src/Rag/Query/Tables.antt =====
-- internal/rag/query_processor.go: the tables of synonyms, topics and stop words.
use syara_ai.Base.{List, [], ◌∷◌, map, Text, codes, text_equality, Dict}

abbrev pub synonym_map : Dict Text (List Text)
synonym_map =
    (
      codes "murabaha",
      codes "cost-plus"
          ∷ codes "mark-up financing"
          ∷ codes "cost-plus financing"
          ∷ codes "murabahah"
          ∷ [],
    )
    ∷ (codes "murabahah", codes "cost-plus" ∷ codes "mark-up financing" ∷ codes "murabaha" ∷ [])
    ∷ (
      codes "musharakah",
      codes "partnership"
          ∷ codes "equity sharing"
          ∷ codes "profit sharing partnership"
          ∷ codes "musharaka"
          ∷ [],
    )
    ∷ (codes "musharaka", codes "partnership" ∷ codes "equity sharing" ∷ codes "musharakah" ∷ [])
    ∷ (
      codes "mudharabah",
      codes "profit sharing" ∷ codes "trust financing" ∷ codes "mudaraba" ∷ codes "mudarabah" ∷ [],
    )
    ∷ (codes "mudaraba", codes "profit sharing" ∷ codes "trust financing" ∷ codes "mudharabah" ∷ [])
    ∷ (
      codes "ijarah",
      codes "leasing" ∷ codes "lease financing" ∷ codes "ijara" ∷ codes "lease" ∷ [],
    )
    ∷ (codes "ijara", codes "leasing" ∷ codes "lease financing" ∷ codes "ijarah" ∷ [])
    ∷ (
      codes "sukuk",
      codes "islamic bonds" ∷ codes "islamic securities" ∷ codes "shariah bonds" ∷ [],
    )
    ∷ (
      codes "takaful",
      codes "islamic insurance" ∷ codes "shariah insurance" ∷ codes "mutual insurance" ∷ [],
    )
    ∷ (codes "riba", codes "interest" ∷ codes "usury" ∷ codes "prohibited interest" ∷ [])
    ∷ (codes "gharar", codes "uncertainty" ∷ codes "speculation" ∷ codes "excessive risk" ∷ [])
    ∷ (codes "maysir", codes "gambling" ∷ codes "games of chance" ∷ [])
    ∷ (codes "wadiah", codes "safekeeping" ∷ codes "deposit" ∷ codes "custody" ∷ [])
    ∷ (codes "wakalah", codes "agency" ∷ codes "delegation" ∷ codes "wakala" ∷ [])
    ∷ (codes "wakala", codes "agency" ∷ codes "delegation" ∷ codes "wakalah" ∷ [])
    ∷ (codes "qard", codes "loan" ∷ codes "benevolent loan" ∷ codes "qardh" ∷ [])
    ∷ (codes "qardh", codes "loan" ∷ codes "benevolent loan" ∷ codes "qard" ∷ [])
    ∷ (
      codes "istisna",
      codes "manufacturing contract" ∷ codes "construction financing" ∷ codes "istisna'a" ∷ [],
    )
    ∷ (codes "salam", codes "forward sale" ∷ codes "advance payment sale" ∷ [])
    ∷ (codes "hibah", codes "gift" ∷ codes "donation" ∷ [])
    ∷ (codes "zakat", codes "alms" ∷ codes "charity tax" ∷ codes "obligatory charity" ∷ [])
    ∷ (codes "waqf", codes "endowment" ∷ codes "charitable trust" ∷ [])
    ∷ (codes "shariah", codes "sharia" ∷ codes "islamic law" ∷ codes "shariah compliant" ∷ [])
    ∷ (codes "sharia", codes "shariah" ∷ codes "islamic law" ∷ [])
    ∷ (codes "halal", codes "permissible" ∷ codes "lawful" ∷ [])
    ∷ (codes "haram", codes "prohibited" ∷ codes "forbidden" ∷ codes "unlawful" ∷ [])
    ∷ (codes "financing", codes "loan" ∷ codes "credit facility" ∷ codes "funding" ∷ [])
    ∷ (codes "deposit", codes "savings" ∷ codes "investment account" ∷ [])
    ∷ (codes "current account", codes "checking account" ∷ codes "demand deposit" ∷ [])
    ∷ (codes "compliance", codes "regulatory compliance" ∷ codes "shariah compliance" ∷ [])
    ∷ (codes "governance", codes "shariah governance" ∷ codes "corporate governance" ∷ [])
    ∷ (codes "audit", codes "shariah audit" ∷ codes "internal audit" ∷ [])
    ∷ (codes "supervision", codes "regulatory supervision" ∷ codes "prudential supervision" ∷ [])
    ∷ []

abbrev pub topic_map : Dict Text (List Text)
topic_map =
    (codes "murabaha", codes "islamic_financing" ∷ codes "retail_banking" ∷ [])
    ∷ (codes "musharakah", codes "islamic_financing" ∷ codes "equity_financing" ∷ [])
    ∷ (codes "ijarah", codes "islamic_financing" ∷ codes "leasing" ∷ [])
    ∷ (codes "sukuk", codes "capital_markets" ∷ codes "islamic_securities" ∷ [])
    ∷ (codes "takaful", codes "insurance" ∷ [])
    ∷ (codes "deposit", codes "retail_banking" ∷ codes "deposits" ∷ [])
    ∷ (codes "governance", codes "shariah_governance" ∷ codes "compliance" ∷ [])
    ∷ (codes "audit", codes "shariah_audit" ∷ codes "compliance" ∷ [])
    ∷ (codes "risk", codes "risk_management" ∷ [])
    ∷ (codes "capital", codes "capital_adequacy" ∷ codes "regulatory" ∷ [])
    ∷ (codes "liquidity", codes "liquidity_management" ∷ codes "treasury" ∷ [])
    ∷ (codes "zakat", codes "zakat" ∷ codes "social_finance" ∷ [])
    ∷ (codes "waqf", codes "waqf" ∷ codes "social_finance" ∷ [])
    ∷ []

abbrev pub stop_words : List Text
stop_words = map codes (
    "a" ∷ "an" ∷ "the" ∷ "is" ∷ "are" ∷ "was" ∷ "were" ∷ "be" ∷ "been" ∷ "being" ∷ "have" ∷ "has"
    ∷ "had" ∷ "do" ∷ "does" ∷ "did" ∷ "will" ∷ "would" ∷ "could" ∷ "should" ∷ "may" ∷ "might"
    ∷ "must" ∷ "shall" ∷ "can" ∷ "need" ∷ "dare" ∷ "ought" ∷ "used" ∷ "to" ∷ "of" ∷ "in" ∷ "for"
    ∷ "on" ∷ "with" ∷ "at" ∷ "by" ∷ "from" ∷ "as" ∷ "into" ∷ "through" ∷ "during" ∷ "before"
    ∷ "after" ∷ "above" ∷ "below" ∷ "between" ∷ "under" ∷ "again" ∷ "further" ∷ "then" ∷ "once"
    ∷ "here" ∷ "there" ∷ "when" ∷ "where" ∷ "why" ∷ "how" ∷ "all" ∷ "each" ∷ "few" ∷ "more" ∷ "most"
    ∷ "other" ∷ "some" ∷ "such" ∷ "no" ∷ "nor" ∷ "not" ∷ "only" ∷ "own" ∷ "same" ∷ "so" ∷ "than"
    ∷ "too" ∷ "very" ∷ "just" ∷ "and" ∷ "but" ∷ "if" ∷ "or" ∷ "because" ∷ "until" ∷ "while"
    ∷ "about" ∷ "against" ∷ "i" ∷ "me" ∷ "my" ∷ "myself" ∷ "we" ∷ "our" ∷ "ours" ∷ "ourselves"
    ∷ "you" ∷ "your" ∷ "yours" ∷ "yourself" ∷ "yourselves" ∷ "he" ∷ "him" ∷ "his" ∷ "himself"
    ∷ "she" ∷ "her" ∷ "hers" ∷ "herself" ∷ "it" ∷ "its" ∷ "itself" ∷ "they" ∷ "them" ∷ "their"
    ∷ "theirs" ∷ "themselves" ∷ "what" ∷ "which" ∷ "who" ∷ "whom" ∷ "this" ∷ "that" ∷ "these"
    ∷ "those" ∷ "am" ∷ [])
