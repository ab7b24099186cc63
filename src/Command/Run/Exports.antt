-- ===== src/Command/Run/Exports.antt =====
-- The phases of `run` of src/index.ts up to the file of the genesis assets, where no call fails.
use lisk_migrator.Common.{
  ◌≡◌, refl, sym, ap, subst, [], ◌∷◌, Option, none, some, ok, err, undefined_property,
}
use lisk_migrator.Assets.Legacy.Laws.{get_legacy_module_entry-ok}
use lisk_migrator.Command.{Flags}
use lisk_migrator.Command.Run.Interface.{
  Calls, is_url, is_tar_ball, given, token_id_of, snapshot_path,
}
use lisk_migrator.Command.Run.Makes.{
  Makes, Any, makes_bind, makes_pure, makes_perform, makes_if, makes_did, makes_quiet, makes_given,
  makes_set_chain, makes_with_globals, lift_then, perform_then,
}
use lisk_migrator.Command.Run.Monad.{
  forging_subscribed, height_finalized, assets_written, pure, set_chain, get_chain, with_globals,
}
use lisk_migrator.Command.Run.Phases.{fetch_snapshot, await_node, observed, export_assets}
use lisk_migrator.CreateAsset.{init}
use lisk_migrator.CreateAsset.Supply.Init.{init_lem, reserve}
use lisk_migrator.Types.{NetworkConfigLocal}
use lisk_migrator.Utils.Chain.{
  Outcome, ChainState, set_token_id_lsk_by_net_id, set_prev_snapshot_block_height_by_net_id,
}
use lisk_migrator.Command.Run.Favourable.{IsFavourable, fetch_effects}

module _ (calls : Calls) (flags : Flags) (f : IsFavourable calls flags) where
  pub fetch_snapshot-Makes :
      Makes Any
        (fetch_snapshot calls flags)
        (fetch_effects flags (snapshot_path calls flags))
        (λ b. Any)
  unfolding fetch_snapshot
  fetch_snapshot-Makes =
      makes_if (is_url flags.snapshot_url) _ _ _ _
        (λ _. makes_perform _ tt (f.downloaded (given flags.snapshot_url)))
        (λ _.
          makes_if (is_tar_ball (snapshot_path calls flags)) _ _ _ _
            (λ _. makes_perform _ tt (f.unpacked (given (snapshot_path calls flags))))
            (λ _. makes_pure tt))

  observed-Makes :
      (outcome : Outcome)
      → outcome ≡ Outcome.resolved f.final_height
      → Makes Any (observed outcome) (height_finalized ∷ []) (λ b. Any)
  observed-Makes outcome e =
      subst (λ o. Makes Any (observed o) (height_finalized ∷ []) (λ b. Any)) (sym e)
        (record { makes = (makes_did height_finalized).makes })

  pub await_node-Makes :
      Makes Any
        (await_node calls flags f.network_identifier)
        (forging_subscribed ∷ height_finalized ∷ [])
        (λ b. Any)
  unfolding await_node
  await_node-Makes = lift_then _ f.node _ f.node_answers (
      lift_then _ tt _ f.heights_fit (
        makes_bind (makes_did forging_subscribed)
          λ _. lift_then _ tt _ f.core_fits (observed-Makes _ f.finalized)))

  abbrev HasToken : ChainState → Type 0
  HasToken chain = chain.token_id_lsk ≡ some f.network.token_id

  set_token-Makes :
      Makes Any
        (set_chain (set_token_id_lsk_by_net_id f.network_identifier))
        []
        (λ b w. HasToken w.chain)
  unfolding set_token_id_lsk_by_net_id
  set_token-Makes = makes_set_chain _ λ chain p. (
    record {
      token_id_lsk = some f.network.token_id;
      prev_snapshot_block_height = chain.prev_snapshot_block_height;
    },
    ap
        (λ (o : Option NetworkConfigLocal). elim o [
          | none ↦ err undefined_property
          | some info ↦ ok (record {
            token_id_lsk = some info.token_id;
            prev_snapshot_block_height = chain.prev_snapshot_block_height;
          })
        ])
        f.known,
    refl,
  )

  set_height-Makes :
      Makes
        (λ w. HasToken w.chain)
        (set_chain (set_prev_snapshot_block_height_by_net_id f.network_identifier))
        []
        (λ b w. HasToken w.chain)
  unfolding set_prev_snapshot_block_height_by_net_id
  set_height-Makes = makes_set_chain _ λ chain p. (
    record {
      token_id_lsk = chain.token_id_lsk;
      prev_snapshot_block_height = some f.network.prev_snapshot_block_height;
    },
    ap
        (λ (o : Option NetworkConfigLocal). elim o [
          | none ↦ err undefined_property
          | some info ↦ ok (record {
            token_id_lsk = chain.token_id_lsk;
            prev_snapshot_block_height = some info.prev_snapshot_block_height;
          })
        ])
        f.known,
    p,
  )

  get_chain-Makes : Makes (λ w. HasToken w.chain) get_chain [] (λ chain w. HasToken chain)
  unfolding get_chain
  get_chain-Makes = makes_quiet _ λ w p. (w.chain, w, refl, refl, p)

  init-Makes :
      Makes Any
        (with_globals (
          init calls.fuel calls.crypto calls.codec f.db flags.snapshot_height f.network.token_id
            flags.page_size))
        []
        (λ b. Any)
  init-Makes = makes_with_globals _ λ g.
      let made = init_lem _ f.readable g _ _ (
        get_legacy_module_entry-ok calls.codec.unregistered_addresses f.readable.encoded
          (reserve _ f.readable) f.readable.unregistered f.readable.unregistered_decoded) in
      (_, _, made)

  token_id_of-eq :
      (chain : ChainState)
      → chain.token_id_lsk ≡ some f.network.token_id
      → token_id_of chain ≡ ok f.network.token_id
  token_id_of-eq chain h = rw h refl

  pub export_assets-Makes :
      Makes Any
        (export_assets calls flags f.network_identifier)
        (assets_written ∷ [])
        (λ exported w. exported ≡ (f.db, f.config_path, f.default_config))
  unfolding export_assets pure
  export_assets-Makes = makes_bind set_token-Makes λ _. makes_bind set_height-Makes λ _.
      lift_then _ f.path _ f.path_found (
        lift_then _ f.db _ f.opened (
          makes_bind get_chain-Makes λ chain. makes_given λ h.
            lift_then _ f.network.token_id _ (token_id_of-eq chain h) (
              makes_bind init-Makes λ assets. lift_then _ f.config_path _ f.config_found (
                lift_then _ f.default_config _ f.config_read (
                  perform_then _ tt _ (f.assets_kept assets)
                    (makes_quiet _ λ w p. (_, w, refl, refl, refl)))))))
