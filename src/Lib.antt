-- ===== src/Lib.antt =====
-- A model of openstack-operator, the Kubernetes operator that deploys OpenStack and moves it from
-- one version to the next.
--
-- The core is the minor update. An OpenStackVersion names a target version. Its webhook decides
-- which changes of it are allowed; its controller computes the container images of the target,
-- waits until the control plane and the data plane run them, stage by stage, and then records the
-- target as the deployed version. Reconcilers of other resources do the work, and the controller
-- reads their status. On the data plane an OpenStackDataPlaneDeployment runs the services of its
-- nodesets as Ansible jobs, one after the other, and records the version when all of them are done;
-- the controller of a nodeset takes it over from there, and the version's controller reads it from
-- the nodeset. One reconcile is one function of the stored resource and of what the API server
-- answers; the next reconcile starts from what the last one stored.
--
-- Files, and the code that they model (paths from the repository's root):
--   Prelude            shared names; Go's nil pointers, maps and results, and the control flow of a
--                      handler
--   Images             api/core/v1beta1/openstackversion_types.go (the images) and
--                      internal/openstack/version.go: GetContainerImages
--   Version            api/core/v1beta1/openstackversion_types.go: the resource, and its comparisons
--                      customContainerImagesAllModified, containerTemplateEqual, stringMapEqual
--   ImageMatch         internal/openstack/*.go: the ImageMatch functions, one per service;
--                      Infrastructure has those of the database, the caches, RabbitMQ, OVN and DNS,
--                      Failed has ControlplaneContainerImageMatch of internal/openstack/version.go
--   Conditions         lib-common's conditions, as an interface with laws; the condition types are in
--                      VersionController/Stages, from api/core/v1beta1/conditions.go
--   Dependencies       api/core/v1beta1/openstackcontrolplane_webhook.go: checkDepsEnabled and
--                      ValidateServiceDependencies
--   Nodesets           internal/openstack/dataplane.go
--   Services           internal/dataplane/service.go: DedupeServices, dedupe
--   Overrides          internal/operator/override.go
--   Deployer           internal/dataplane/deployment.go: ConditionalDeploy, in Rounds Deploy, and
--                      GetAnsibleExecution of internal/dataplane/util/ansible_execution.go
--   DeploymentController
--                      internal/controller/dataplane/openstackdataplanedeployment_controller.go:
--                      Reconcile is in Reconciling; Inputs is what it does before the loop over the
--                      nodesets, Rounds that loop; GetVersion of internal/dataplane/util/version.go
--   NodeSetController  internal/controller/dataplane/openstackdataplanenodeset_controller.go:
--                      checkDeployment; Deployments is its loop
--   Manifests          internal/operator/bindata/merge.go
--   VersionController  internal/controller/core/openstackversion_controller.go: Reconcile; Stages are
--                      the steps of a minor update, Initialize what it fills in before them
--   VersionWebhook     api/core/v1beta1/openstackversion_webhook.go
--   Scenarios          concrete values at which the theorems apply
--
-- How the code is modelled. A pointer is an Option and a map an association list; a Go map that the
-- code ranges over has one order here, that of its list. A struct's fields that the code reaches
-- by reflection are an enumeration, ImageField, and a list of its values. An
-- error is kept by its text, and a dereference of nil is a value of its own, panic or panicked.
-- Reconcile's early returns are the values of Flow. Where the code writes to a map that two objects
-- share, as GetContainerImages does, the function returns both objects. The loops are recursion on
-- lists, so nothing here needs fuel. Generations are natural numbers that are only compared, so no
-- overflow arises.
--
-- A nodeset's conditions are a slice that is read from a map: a change of the copy that is not written
-- back shows in the map as ConditionLib's `kept` says, which need not be the change.
--
-- Parameters: what the API server answers (Cluster), what the operator was built with (Env), the
-- package of conditions (ConditionLib) with the laws of Set, Get, Remove, Init and Mirror, and the
-- quantities of Kubernetes in Overrides.
--
-- Not modelled: logging, the times of conditions, and the registration of watches; the reconcilers of
-- the control plane and of the single services, which create resources through the API server; the
-- rest of the nodeset controller, and the functions of internal/dataplane that build Ansible jobs,
-- mounts, certificates and inventories; the rendering of the operator's own manifests; the client, the
-- backup controller and generated code.
pub mod Conditions
pub mod Dependencies
pub mod Deployer
pub mod DeploymentController
pub mod ImageMatch
pub mod Images
pub mod Manifests
pub mod NodeSetController
pub mod Nodesets
pub mod Overrides
pub mod Prelude
pub mod Scenarios
pub mod Services
pub mod Version
pub mod VersionController
pub mod VersionWebhook
