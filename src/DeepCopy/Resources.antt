-- ===== src/DeepCopy/Resources.antt =====
-- pkg/apis/k8cc.io/v1alpha1/zz_generated.deepcopy.go: the pointers, and `DeepCopyInto` of specs and secrets.
use k8cc.Prelude.{ℕ, String, ◌≡◌, refl, Action, Option, List, []}
use k8cc.Prelude.Int.{ℤ, pos}
use k8cc.Clock.{Time, Duration}
use k8cc.Kube.{PodTemplateSpec, LabelSelector, SecretVolumeSource, LocalObjectReference}
use k8cc.Types.{DistccSpec, DistccClientSpec, Secret}
use k8cc.DeepCopy.Memory.{Heap, Copyable}
use k8cc.DeepCopy.Pairs.{plain, both}
use k8cc.DeepCopy.Pointers.{pointer, each, struct}
use k8cc.DeepCopy.Raw.{
  RawDistccSpec, RawClientSpec, RawSecret, Cell, Foreign, selector, int32, duration, time,
  reference, secrets,
}
use k8cc.DeepCopy.Loads.{
  zero_reference, load_selector, load_int32, load_duration, load_time, load_reference, load_secrets,
}

module _ {M P S U X : Type 0} (f : Foreign M P S U X) where
  abbrev pub selector_pointer : Copyable (Cell M P S U X) (Option ℕ) (Option LabelSelector)
  selector_pointer = pointer f.selectors selector (load_selector f) f.zero_selector (λ x. refl)

  abbrev pub int32_pointer : Copyable (Cell M P S U X) (Option ℕ) (Option ℤ)
  int32_pointer = pointer (plain (Cell M P S U X) ℤ) int32 (load_int32 f) (pos 0) (λ x. refl)

  abbrev pub duration_pointer : Copyable (Cell M P S U X) (Option ℕ) (Option Duration)
  duration_pointer =
      pointer (plain (Cell M P S U X) Duration) duration (load_duration f) (pos 0) (λ x. refl)

  abbrev pub time_pointer : Copyable (Cell M P S U X) (Option ℕ) (Option Time)
  time_pointer = pointer (plain (Cell M P S U X) Time) time (load_time f) 0 (λ x. refl)

  abbrev pub reference_pointer : Copyable (Cell M P S U X) (Option ℕ) (Option LocalObjectReference)
  reference_pointer =
      pointer (plain (Cell M P S U X) LocalObjectReference) reference (load_reference f)
        zero_reference (λ x. refl)

  unfoldable pub distcc_spec_deep_copy_into :
      RawDistccSpec P → Action (Heap (Cell M P S U X)) (RawDistccSpec P)
  distcc_spec_deep_copy_into given h =
      let (out_selector, h1) = selector_pointer.copy given.selector h in
      let (out_min_replicas, h2) = int32_pointer.copy given.min_replicas h1 in
      let (out_downscale_window, h3) = duration_pointer.copy given.downscale_window h2 in
      let (out_template, h4) = f.templates.copy given.template h3 in
      (
        record given {
          selector = out_selector;
          min_replicas = out_min_replicas;
          downscale_window = out_downscale_window;
          template = out_template;
        },
        h4,
      )

  abbrev pub distcc_spec_value :
      ((String × String × ℤ × ℤ × Duration)
        × (Option LabelSelector × (Option ℤ × (Option Duration × PodTemplateSpec))))
      → DistccSpec
  distcc_spec_value
        (
          (
            the_deployment_name, the_service_name, the_max_replicas, the_user_replicas,
            the_lease_duration,
          ),
          (the_selector, (the_min_replicas, (the_downscale_window, the_template))),
        ) =
      record {
        deployment_name = the_deployment_name;
        service_name = the_service_name;
        max_replicas = the_max_replicas;
        user_replicas = the_user_replicas;
        lease_duration = the_lease_duration;
        selector = the_selector;
        min_replicas = the_min_replicas;
        downscale_window = the_downscale_window;
        template = the_template;
      }

  abbrev pub distcc_spec_parts :
      Copyable
        (Cell M P S U X)
        ((String × String × ℤ × ℤ × Duration) × (Option ℕ × (Option ℕ × (Option ℕ × P))))
        ((String × String × ℤ × ℤ × Duration)
          × (Option LabelSelector × (Option ℤ × (Option Duration × PodTemplateSpec))))
  distcc_spec_parts =
      (both (plain (Cell M P S U X) (String × String × ℤ × ℤ × Duration))
        (both selector_pointer (both int32_pointer (both duration_pointer f.templates))))

  -- The fields as nested pairs.
  abbrev pub distcc_spec_tuple :
      (RawDistccSpec P)
      → ((String × String × ℤ × ℤ × Duration) × (Option ℕ × (Option ℕ × (Option ℕ × P))))
  distcc_spec_tuple r = (
    (r.deployment_name, r.service_name, r.max_replicas, r.user_replicas, r.lease_duration),
    (r.selector, (r.min_replicas, (r.downscale_window, r.template))),
  )

  pub distcc_spec_fields :
      (r : RawDistccSpec P) (h : Heap (Cell M P S U X))
      → (distcc_spec_tuple (distcc_spec_deep_copy_into r h).0, (distcc_spec_deep_copy_into r h).1)
        ≡ distcc_spec_parts.copy (distcc_spec_tuple r) h
  unfolding distcc_spec_deep_copy_into
  distcc_spec_fields r h = refl

  abbrev pub distcc_spec_copyable : Copyable (Cell M P S U X) (RawDistccSpec P) DistccSpec
  distcc_spec_copyable =
      struct distcc_spec_parts distcc_spec_tuple distcc_spec_value distcc_spec_deep_copy_into
        distcc_spec_fields

  unfoldable pub client_spec_deep_copy_into :
      RawClientSpec P → Action (Heap (Cell M P S U X)) (RawClientSpec P)
  client_spec_deep_copy_into given h =
      let (out_selector, h1) = selector_pointer.copy given.selector h in
      let (out_template, h2) = f.templates.copy given.template h1 in
      (record given { selector = out_selector; template = out_template }, h2)

  abbrev pub client_spec_value :
      (Duration × (Option LabelSelector × PodTemplateSpec)) → DistccClientSpec
  client_spec_value (the_lease_duration, (the_selector, the_template)) = record {
    lease_duration = the_lease_duration;
    selector = the_selector;
    template = the_template;
  }

  abbrev pub client_spec_parts :
      Copyable
        (Cell M P S U X)
        (Duration × (Option ℕ × P))
        (Duration × (Option LabelSelector × PodTemplateSpec))
  client_spec_parts = (both (plain (Cell M P S U X) Duration) (both selector_pointer f.templates))

  -- The fields as nested pairs.
  abbrev pub client_spec_tuple : (RawClientSpec P) → (Duration × (Option ℕ × P))
  client_spec_tuple r = (r.lease_duration, (r.selector, r.template))

  pub client_spec_fields :
      (r : RawClientSpec P) (h : Heap (Cell M P S U X))
      → (client_spec_tuple (client_spec_deep_copy_into r h).0, (client_spec_deep_copy_into r h).1)
        ≡ client_spec_parts.copy (client_spec_tuple r) h
  unfolding client_spec_deep_copy_into
  client_spec_fields r h = refl

  abbrev pub client_spec_copyable : Copyable (Cell M P S U X) (RawClientSpec P) DistccClientSpec
  client_spec_copyable =
      struct client_spec_parts client_spec_tuple client_spec_value client_spec_deep_copy_into
        client_spec_fields

  unfoldable pub secret_deep_copy_into : RawSecret U → Action (Heap (Cell M P S U X)) (RawSecret U)
  secret_deep_copy_into given h =
      let (out_volume_source, h1) = f.sources.copy given.volume_source h in
      (record given { volume_source = out_volume_source }, h1)

  abbrev pub secret_value : (String × SecretVolumeSource) → Secret
  secret_value (the_name, the_volume_source) = record {
    name = the_name;
    volume_source = the_volume_source;
  }

  abbrev pub secret_parts : Copyable (Cell M P S U X) (String × U) (String × SecretVolumeSource)
  secret_parts = (both (plain (Cell M P S U X) String) f.sources)

  -- The fields as nested pairs.
  abbrev pub secret_tuple : (RawSecret U) → (String × U)
  secret_tuple r = (r.name, r.volume_source)

  pub secret_fields :
      (r : RawSecret U) (h : Heap (Cell M P S U X))
      → (secret_tuple (secret_deep_copy_into r h).0, (secret_deep_copy_into r h).1)
        ≡ secret_parts.copy (secret_tuple r) h
  unfolding secret_deep_copy_into
  secret_fields r h = refl

  abbrev pub secret_copyable : Copyable (Cell M P S U X) (RawSecret U) Secret
  secret_copyable =
      struct secret_parts secret_tuple secret_value secret_deep_copy_into secret_fields

  -- The slice of secrets.
  abbrev pub secrets_pointer : Copyable (Cell M P S U X) (Option ℕ) (Option (List Secret))
  secrets_pointer = pointer (each secret_copyable) secrets (load_secrets f) [] (λ x. refl)
