-- ===== src/Tests/Runner.antt =====
-- The runner's theorems, applied to the sample.
use aptly_gui.Prelude.{◌≡◌, refl, true, some, [], ◌∷◌, All}
use aptly_gui.Text.{codes}
use aptly_gui.Exec.{Exc, returned, threw, ◌>>=◌, pure, raise, lift}
use aptly_gui.Aptly.Models.{Published}
use aptly_gui.Aptly.Client.{send, read_reply}
use aptly_gui.Aptly.Client.Requests.{list_published}
use aptly_gui.Db.Models.{JobType, create, update, switch, complete, SnapshotSet, MirrorSet}
use aptly_gui.Jobs.Checks.{problems_of}
use aptly_gui.Jobs.State.{
  World, look, ask, change, get_job, next_job_id, get_snapshot_set, get_mirror_set,
}
use aptly_gui.Jobs.Run.Ending.{Ended}
use aptly_gui.Jobs.Run.Honest.{started, outcome, run_job_honest, run_job_dropped}
use aptly_gui.Jobs.Run.Logged.{logged}
use aptly_gui.Jobs.Run.Reach.{Permitted, run_job_reach}
use aptly_gui.Jobs.Run.Recovery.{recover_orphans_settles}
use aptly_gui.Jobs.Run.{run_job, set_of, recover_orphans}
use aptly_gui.Jobs.Switch.Target.{
  PublishedAndShown, switch_job-refuses, switch_job-publishes, acceptable,
}
use aptly_gui.Jobs.Switch.{
  switch_job, target_id, accept_target, publish_each, verify, settle_problems, check_if_public,
  publish_one,
}
use aptly_gui.Tests.Sample.{
  world, prompt_aptly, prompt-Patience, sample_set, sample_snapshots, sample_job, sample_local,
  sample_margin,
}

run_job_honest_example :
    ((run_job prompt_aptly sample_margin 60 1 7 (world switch (sample_set ∷ []))).0 ≡ returned tt)
    × Ended
        (outcome prompt_aptly sample_margin 60 1 7
          (sample_job switch)
          (world switch (sample_set ∷ [])))
        (sample_job switch)
        (some sample_set)
        (run_job prompt_aptly sample_margin 60 1 7 (world switch (sample_set ∷ []))).1.own
unfolding get_job set_of get_mirror_set
run_job_honest_example =
    run_job_honest prompt_aptly sample_margin 60 1 7 (world switch (sample_set ∷ []))
      (sample_job switch) prompt-Patience refl refl refl

run_job_dropped_example :
    run_job prompt_aptly sample_margin 60 1 7 (world create [])
    ≡ (returned tt, started 7 (world create []))
unfolding get_job set_of get_mirror_set
run_job_dropped_example =
    run_job_dropped prompt_aptly sample_margin 60 1 7 (world create []) (sample_job create) refl
      refl

run_job_reach_example :
    All
      (Permitted 60 (sample_job switch) (some sample_set))
      (run_job
        (logged prompt_aptly)
        sample_margin
        60
        1
        7
        (record { outside = ([], tt); own = sample_local switch (sample_set ∷ []) })).1.outside.0
unfolding get_job set_of get_mirror_set
run_job_reach_example =
    run_job_reach prompt_aptly sample_margin 60 1 7
      (record { outside = ([], tt); own = sample_local switch (sample_set ∷ []) })
      (sample_job switch) prompt-Patience refl refl refl refl

abbrev live_world : World Unit
live_world = world switch (sample_set ∷ [])

switch_job-refuses_example :
    (e : Exc) × (switch_job prompt_aptly sample_margin 1
        (sample_job switch)
        (record sample_set { id = 2 })
        live_world
      ≡ (threw e, live_world))
unfolding get_snapshot_set
switch_job-refuses_example =
    switch_job-refuses prompt_aptly sample_margin 1 (record sample_set { id = 2 })
      (sample_job switch) 5 live_world refl refl

-- The switch of the sample runs to its end.
switched :
    (switch_job prompt_aptly sample_margin 1 (sample_job switch) sample_set live_world).0
    ≡ returned tt
unfolding aptly_gui.Text.same aptly_gui.Text.mem aptly_gui.Text.starts_with
    aptly_gui.Text.starts_with_any aptly_gui.Text.drop_end aptly_gui.Text.ends_with
    aptly_gui.Text.contains aptly_gui.Text.text_leb aptly_gui.Text.lstrip_by
    aptly_gui.Text.rstrip_by aptly_gui.Text.strip_by aptly_gui.Text.strip aptly_gui.Text.replace
    aptly_gui.Text.join aptly_gui.Text.decimal aptly_gui.Json.items aptly_gui.Json.from_items
    aptly_gui.Json.fields aptly_gui.Json.get_field aptly_gui.Json.get aptly_gui.Dict.lookup
    aptly_gui.Dict.insert aptly_gui.Dict.values aptly_gui.Exec.exc_text aptly_gui.Exec.exc_class
    aptly_gui.Exec.is_aptly_error aptly_gui.Exec.describe aptly_gui.Exec.pure aptly_gui.Exec.raise
    aptly_gui.Exec.hang aptly_gui.Exec.lift aptly_gui.Exec.gets aptly_gui.Exec.modify
    aptly_gui.Exec.◌>>=◌ aptly_gui.Exec.catch aptly_gui.Aptly.Fields.index
    aptly_gui.Aptly.Fields.as_num aptly_gui.Aptly.Fields.as_text aptly_gui.Aptly.Models.task_state
    aptly_gui.Aptly.Models.parse_task aptly_gui.Aptly.Models.parse_task_progress
    aptly_gui.Aptly.Models.downloaded_bytes aptly_gui.Aptly.Models.done_packages
    aptly_gui.Aptly.Models.parse_storage aptly_gui.Aptly.Fields.text_items
    aptly_gui.Aptly.Fields.get_texts aptly_gui.Aptly.Fields.get_text
    aptly_gui.Aptly.Models.parse_time aptly_gui.Aptly.Models.parse_mirror
    aptly_gui.Aptly.Models.parse_snapshot aptly_gui.Aptly.Models.source_items
    aptly_gui.Aptly.Models.get_sources aptly_gui.Aptly.Models.parse_published
    aptly_gui.Aptly.Models.snapshot_in aptly_gui.Aptly.Models.snapshot_for
    aptly_gui.Aptly.Client.payload_message aptly_gui.Aptly.Client.decoded_message
    aptly_gui.Aptly.Client.error_message aptly_gui.Aptly.Client.read_reply
    aptly_gui.Aptly.Client.send aptly_gui.Aptly.Client.Requests.parse_items
    aptly_gui.Aptly.Client.Requests.parse_list aptly_gui.Aptly.Client.Bodies.create_mirror_request
    aptly_gui.Aptly.Client.Bodies.update_mirror_request
    aptly_gui.Aptly.Client.Bodies.create_snapshot_request aptly_gui.Aptly.Client.Bodies.source_list
    aptly_gui.Aptly.Client.Bodies.publish_request aptly_gui.Aptly.Client.Bodies.switch_request
    aptly_gui.Aptly.Client.Bodies.delete_request aptly_gui.Aptly.Client.Requests.version
    aptly_gui.Aptly.Client.Requests.storage aptly_gui.Aptly.Client.Requests.list_tasks
    aptly_gui.Aptly.Client.Requests.get_task aptly_gui.Aptly.Client.Requests.task_output
    aptly_gui.Aptly.Client.Requests.task_progress aptly_gui.Aptly.Client.Requests.list_mirrors
    aptly_gui.Aptly.Client.Requests.get_mirror aptly_gui.Aptly.Client.Requests.create_mirror
    aptly_gui.Aptly.Client.Requests.update_mirror aptly_gui.Aptly.Client.Requests.delete_mirror
    aptly_gui.Aptly.Client.Requests.list_snapshots
    aptly_gui.Aptly.Client.Requests.create_snapshot_from_mirror
    aptly_gui.Aptly.Client.Requests.delete_snapshot aptly_gui.Aptly.Client.Requests.list_published
    aptly_gui.Aptly.Client.Requests.publish_snapshots
    aptly_gui.Aptly.Client.Requests.switch_published aptly_gui.Aptly.Client.Requests.drop_published
    aptly_gui.Aptly.Client.Requests.db_cleanup aptly_gui.Aptly.Client.Prefix.encode_prefix
    aptly_gui.Aptly.Models.Payloads.when_set aptly_gui.Aptly.Models.Payloads.spec_payload
    aptly_gui.Aptly.Models.Payloads.signing_payload aptly_gui.Services.Naming.mirror_name
    aptly_gui.Services.Naming.suite_stem aptly_gui.Services.Naming.set_name_or_stem
    aptly_gui.Services.Naming.split_without_set aptly_gui.Services.Naming.split_single
    aptly_gui.Services.Naming.split_components aptly_gui.Services.Naming.split_mirror_name
    aptly_gui.Db.Models.role_can aptly_gui.Db.Models.user_can aptly_gui.Db.Models.mirror_name
    aptly_gui.Db.Models.publish_target aptly_gui.Db.Models.names_of_suite
    aptly_gui.Db.Models.names_of_suites aptly_gui.Db.Models.expected_mirrors
    aptly_gui.Jobs.Plan.snapshot_stamp aptly_gui.Jobs.Plan.rank aptly_gui.Jobs.Plan.suite_leb
    aptly_gui.Jobs.Plan.order_suites aptly_gui.Jobs.Plan.expected_steps
    aptly_gui.Jobs.Plan.discard_steps aptly_gui.Jobs.Plan.spec_for
    aptly_gui.Jobs.Checks.pairs_of_suite aptly_gui.Jobs.Checks.pairs_of
    aptly_gui.Jobs.Checks.job_pairs aptly_gui.Jobs.Checks.missing_message
    aptly_gui.Jobs.Checks.space_detail aptly_gui.Jobs.Checks.sources_from
    aptly_gui.Jobs.Checks.find_published aptly_gui.Jobs.Checks.component_problem
    aptly_gui.Jobs.Checks.component_problems aptly_gui.Jobs.Checks.suite_problems
    aptly_gui.Jobs.Checks.problems_of aptly_gui.Jobs.State.ask aptly_gui.Jobs.State.change
    aptly_gui.Jobs.State.look aptly_gui.Jobs.State.committed aptly_gui.Jobs.State.update_step
    aptly_gui.Jobs.State.update_job aptly_gui.Jobs.State.update_snapshot_set
    aptly_gui.Jobs.State.get_job aptly_gui.Jobs.State.get_mirror_set
    aptly_gui.Jobs.State.get_snapshot_set aptly_gui.Jobs.State.next_step_id
    aptly_gui.Jobs.State.next_snapshot_set_id aptly_gui.Jobs.State.next_job_id
    aptly_gui.Jobs.State.step_added aptly_gui.Jobs.State.output_set
    aptly_gui.Jobs.State.step_finished aptly_gui.Jobs.State.fail_if_running
    aptly_gui.Jobs.State.fail_steps aptly_gui.Jobs.State.clock aptly_gui.Jobs.State.commit
    aptly_gui.Jobs.State.add_step aptly_gui.Jobs.State.finish_step aptly_gui.Jobs.State.set_step
    aptly_gui.Jobs.State.fail_running_steps aptly_gui.Jobs.State.add_audit
    aptly_gui.Jobs.State.set_job aptly_gui.Jobs.State.set_snapshot_set aptly_gui.Jobs.Await.pause
    aptly_gui.Jobs.Await.guard_disk aptly_gui.Jobs.Await.record_progress
    aptly_gui.Jobs.Await.await_loop aptly_gui.Jobs.Await.output_or_failure
    aptly_gui.Jobs.Await.await_task aptly_gui.Jobs.Work.without_snapshot_set
    aptly_gui.Jobs.Work.without_mirror_set aptly_gui.Jobs.Work.follow_task
    aptly_gui.Jobs.Work.give_up aptly_gui.Jobs.Work.mark_failed aptly_gui.Jobs.Work.reclaim
    aptly_gui.Jobs.Work.create_one aptly_gui.Jobs.Work.create_each aptly_gui.Jobs.Work.create_job
    aptly_gui.Jobs.Work.discard_each aptly_gui.Jobs.Work.drop_found_snapshots
    aptly_gui.Jobs.Work.drop_snapshot_set aptly_gui.Jobs.Work.discard_job
    aptly_gui.Jobs.Work.remove_each aptly_gui.Jobs.Work.drop_found_set
    aptly_gui.Jobs.Work.drop_mirror_set aptly_gui.Jobs.Work.remove_job
    aptly_gui.Jobs.Switch.accept_target aptly_gui.Jobs.Switch.target_id
    aptly_gui.Jobs.Switch.publish_one aptly_gui.Jobs.Switch.publish_each
    aptly_gui.Jobs.Switch.settle_problems aptly_gui.Jobs.Switch.verify
    aptly_gui.Jobs.Switch.check_each aptly_gui.Jobs.Switch.check_as_client
    aptly_gui.Jobs.Switch.check_if_public aptly_gui.Jobs.Switch.switch_job
switched = refl

switch_job-publishes_example :
    (target : SnapshotSet) × (some sample_snapshots ≡ some target)
    × (acceptable sample_set (some target) ≡ true)
    × PublishedAndShown prompt_aptly sample_margin 1 sample_set
        (sample_job switch)
        target.snapshots
        live_world
unfolding get_snapshot_set
switch_job-publishes_example =
    switch_job-publishes prompt_aptly sample_margin 1 sample_set (sample_job switch) 5 live_world
      refl switched

recover_orphans_settles_example :
    (recover_orphans prompt_aptly sample_margin 60 1 live_world).0 ≡ returned tt
recover_orphans_settles_example =
    (recover_orphans_settles prompt_aptly sample_margin 60 1 7 live_world).0
