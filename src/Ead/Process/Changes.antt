-- ===== src/Ead/Process/Changes.antt =====
-- ikuzo/service/x/ead/service.go: what `Process` writes into a task beside its state.
use hub.Prelude.{◌≡◌, sym, ap, ◌∙◌, arith}
use hub.Ead.Task.{Task}
use hub.Ead.Task.Valid.{IsWellFormed}
use hub.Ead.Process.{
  Work, set_created, set_title, set_clevels, set_interrupted, set_counts, set_metrics,
}

-- A change of the metadata or of the metrics leaves a task well formed.
module _ (w : Work) (t : Task) (wf : IsWellFormed t) where
  pub set_created-IsWellFormed : IsWellFormed (set_created w t)
  unfolding set_created
  set_created-IsWellFormed = record {
    in_last = wf.in_last;
    path = wf.path;
    was_pending = wf.was_pending;
  }

  pub in_state-set_title : (set_title w t).in_state ≡ t.in_state
  unfolding set_title
  in_state-set_title = ground arith

  pub current-set_title : (set_title w t).current ≡ t.current
  unfolding set_title
  current-set_title = ground arith

  pub earlier-set_title : (set_title w t).earlier ≡ t.earlier
  unfolding set_title
  earlier-set_title = ground arith

  pub set_title-IsWellFormed : IsWellFormed (set_title w t)
  set_title-IsWellFormed = record {
    in_last = in_state-set_title ∙ (wf.in_last ∙ ap (λ x. x.state) (sym current-set_title));
    path = rw (current-set_title, earlier-set_title) wf.path;
    was_pending = rw (current-set_title, earlier-set_title, in_state-set_title) wf.was_pending;
  }

  pub set_clevels-IsWellFormed : IsWellFormed (set_clevels w t)
  unfolding set_clevels
  set_clevels-IsWellFormed = record {
    in_last = wf.in_last;
    path = wf.path;
    was_pending = wf.was_pending;
  }

  pub set_interrupted-IsWellFormed : IsWellFormed (set_interrupted t)
  unfolding set_interrupted
  set_interrupted-IsWellFormed = record {
    in_last = wf.in_last;
    path = wf.path;
    was_pending = wf.was_pending;
  }

  pub set_counts-IsWellFormed : IsWellFormed (set_counts w t)
  unfolding set_counts
  set_counts-IsWellFormed = record {
    in_last = wf.in_last;
    path = wf.path;
    was_pending = wf.was_pending;
  }

  pub set_metrics-IsWellFormed : IsWellFormed (set_metrics w t)
  unfolding set_metrics
  set_metrics-IsWellFormed = record {
    in_last = wf.in_last;
    path = wf.path;
    was_pending = wf.was_pending;
  }
