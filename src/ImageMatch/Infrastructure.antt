-- ===== src/ImageMatch/Infrastructure.antt =====
-- The comparison of the images of what the services of the control plane run on: the
-- `…ImageMatch` functions of internal/openstack for the database, the caches, RabbitMQ, OVN, DNS and
-- the client.
use openstack_operator.Prelude.{Bool, true, false, [], ◌∷◌, if◌then◌else◌}
use openstack_operator.Images.{
  infra_dnsmasq_image, infra_memcached_image, infra_redis_image, mariadb_image,
  openstack_client_image, ovn_controller_image, ovn_controller_ovs_image, ovn_nb_dbcluster_image,
  ovn_northd_image, ovn_sb_dbcluster_image, rabbitmq_image,
}
use openstack_operator.Version.{OpenStackVersion, string_ptr_equal}
use openstack_operator.ImageMatch.{
  dns, galera, memcached, redis, ovn, rabbitmq, ControlPlane, images_differ, volumes_match,
}

module _ {C : Type 0} where
  unfoldable pub dnsmasq_image_match : ControlPlane C → OpenStackVersion C → Bool
  unfolding images_differ volumes_match string_ptr_equal
  dnsmasq_image_match cp version =
      if cp.enabled dns
      then (if images_differ cp.container_images version.container_images (infra_dnsmasq_image ∷ [])
          then false
          else true)
      else true

  unfoldable pub galera_image_match : ControlPlane C → OpenStackVersion C → Bool
  unfolding images_differ volumes_match string_ptr_equal
  galera_image_match cp version =
      if cp.enabled galera
      then (if images_differ cp.container_images version.container_images (mariadb_image ∷ [])
          then false
          else true)
      else true

  unfoldable pub memcached_image_match : ControlPlane C → OpenStackVersion C → Bool
  unfolding images_differ volumes_match string_ptr_equal
  memcached_image_match cp version =
      if cp.enabled memcached
      then (if images_differ cp.container_images version.container_images
            (infra_memcached_image ∷ [])
          then false
          else true)
      else true

  unfoldable pub redis_image_match : ControlPlane C → OpenStackVersion C → Bool
  unfolding images_differ volumes_match string_ptr_equal
  redis_image_match cp version =
      if cp.enabled redis
      then (if images_differ cp.container_images version.container_images (infra_redis_image ∷ [])
          then false
          else true)
      else true

  unfoldable pub client_image_match : ControlPlane C → OpenStackVersion C → Bool
  unfolding images_differ volumes_match string_ptr_equal
  client_image_match cp version =
      if images_differ cp.container_images version.container_images (openstack_client_image ∷ [])
      then false
      else true

  unfoldable pub ovn_controller_image_match : ControlPlane C → OpenStackVersion C → Bool
  unfolding images_differ volumes_match string_ptr_equal
  ovn_controller_image_match cp version =
      if cp.enabled ovn
      then (if images_differ cp.container_images version.container_images
            (ovn_controller_image ∷ ovn_controller_ovs_image ∷ [])
          then false
          else true)
      else true

  unfoldable pub ovn_north_image_match : ControlPlane C → OpenStackVersion C → Bool
  unfolding images_differ volumes_match string_ptr_equal
  ovn_north_image_match cp version =
      if cp.enabled ovn
      then (if images_differ cp.container_images version.container_images (ovn_northd_image ∷ [])
          then false
          else true)
      else true

  unfoldable pub ovn_db_cluster_image_match : ControlPlane C → OpenStackVersion C → Bool
  unfolding images_differ volumes_match string_ptr_equal
  ovn_db_cluster_image_match cp version =
      if cp.enabled ovn
      then (if images_differ cp.container_images version.container_images
            (ovn_nb_dbcluster_image ∷ ovn_sb_dbcluster_image ∷ [])
          then false
          else true)
      else true

  unfoldable pub rabbitmq_image_match : ControlPlane C → OpenStackVersion C → Bool
  unfolding images_differ volumes_match string_ptr_equal
  rabbitmq_image_match cp version =
      if cp.enabled rabbitmq
      then (if images_differ cp.container_images version.container_images (rabbitmq_image ∷ [])
          then false
          else true)
      else true
