-- ===== src/Network/Nft.antt =====
-- The nftables table that the agent owns, and what a transaction does to it.
use purenet.Base.{◌≡◌, ◌≢◌, none, List, [], ◌∷◌, ◌++◌, Str, str_dec, ite}
use purenet.Network.Kernel.{NftOp, add_table, add_nat_chain, flush_chain, add_rule, Kernel}

-- The rules of each chain.
abbrev pub Rules : Type 0
Rules = Str → List (List Str)

-- `Add` of a table or a chain that is there changes nothing; one that is new has no rules.
abbrev pub replay : List NftOp → Rules → Rules
replay [] rules = rules
replay (add_table t ∷ ops) rules = replay ops rules
replay (add_nat_chain c ∷ ops) rules = replay ops rules
replay (flush_chain c ∷ ops) rules = replay ops (λ chain. ite (str_dec chain c) [] (rules chain))
replay (add_rule c r ∷ ops) rules =
    replay ops (λ chain. ite (str_dec chain c) (rules chain ++ r ∷ []) (rules chain))

-- What is documented of `Run`: a transaction is carried out in its order, or not at all.
pub record NftTable (K : Kernel) : Type 0 where
  pub rules : K.State → Rules
  pub rules-nft_run :
      (ops : List NftOp) (s : K.State)
      → (K.nft_run ops s).0 ≡ none
      → rules (K.nft_run ops s).1 ≡ replay ops (rules s)
  pub rules-nft_run_failed :
      (ops : List NftOp) (s : K.State)
      → (K.nft_run ops s).0 ≢ none
      → rules (K.nft_run ops s).1 ≡ rules s
