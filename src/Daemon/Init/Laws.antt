-- ===== src/Daemon/Init/Laws.antt =====
-- What Init and DisableInit leave, over all sequences of their calls.
use ozone.Prelude.{◌≡◌, refl, ap, ◌∙◌, Bool, true, false, List, [], ◌∷◌, ◌++◌}
use ozone.Daemon.Init.{
  RunConfig, RunOption, default_config, apply_options, Process, new_process, setup, init_once,
  internal_init, InitCall, init, disable_init, run_init, run_inits, options_of, inits_first,
}

apply_options-append :
    (os ps : List RunOption) (c : RunConfig)
    → apply_options ps (apply_options os c) ≡ apply_options (os ++ ps) c
unfolding apply_options
apply_options-append [] ps c = refl
apply_options-append (o ∷ os) ps c = apply_options-append os ps (o c)

internal_init_again :
    (doinit : Bool) (opts : List RunOption) (p : Process)
    → p.initialized ≡ true
    → internal_init doinit opts p ≡ record p { cfg = apply_options opts p.cfg }
unfolding internal_init init_once
internal_init_again doinit opts p e = rw e refl

-- The calls after the first one.
run_inits_again :
    (cs : List InitCall) (p : Process)
    → p.initialized ≡ true
    → run_inits cs p ≡ record p { cfg = apply_options (options_of cs) p.cfg }
unfolding run_inits run_init apply_options
run_inits_again [] p e = refl
run_inits_again (init opts ∷ cs) p e =
    let next : Process = record p { cfg = apply_options opts p.cfg } in
    ap (run_inits cs) (internal_init_again true opts p e)
    ∙ run_inits_again cs next e
    ∙ ap (λ c. record p { cfg = c }) (apply_options-append opts (options_of cs) p.cfg)
run_inits_again (disable_init ∷ cs) p e =
    ap (run_inits cs) (internal_init_again false [] p e) ∙ run_inits_again cs p e

-- After any calls of Init and DisableInit, one at least: the configuration has all options of the
-- calls of Init, in the order of the calls, over the defaults, and the logger, the control command
-- and the signal handler have been set up once, in this order, if the first call was one of Init,
-- and else not at all.
pub run_inits_lem :
    (c : InitCall) (cs : List InitCall)
    → run_inits (c ∷ cs) new_process ≡ record {
      cfg = apply_options (options_of (c ∷ cs)) default_config;
      initialized = true;
      effects = setup (inits_first (c ∷ cs));
    }
unfolding run_inits run_init internal_init init_once apply_options
run_inits_lem (init opts) cs =
    run_inits_again cs (run_init (init opts) new_process) refl
    ∙ ap (λ c. record { cfg = c; initialized = true; effects = setup true })
        (apply_options-append opts (options_of cs) default_config)
run_inits_lem disable_init cs = run_inits_again cs (run_init disable_init new_process) refl
