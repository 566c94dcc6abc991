-- ===== src/Tigris/Tests.antt =====
-- The package tigris on storages that hold one object: one of Tigris, and one of S3 whose bodies break
-- off.
use go_cook.Shared.{◌≡◌, refl, String, if◌then◌else◌, ◌==◌, none, some, [], new, ok}
use go_cook.Tigris.{Storage, tigris_download_object, s3_download_object}
use go_cook.Tigris.Objects.{Backend, tigris, s3}

abbrev drawer : Storage
drawer = record {
  World = String;
  Client = String;
  Body = String;
  Object = String;
  create_client = λ config w. (ok config.region, w);
  create_bucket = λ c bucket w. (none, w);
  put_object = λ c bucket key file w. (none, file);
  get_object = λ c bucket key w. (ok w, w);
  read_all = λ b w. ((b, none), w);
  list_objects = λ c bucket w. (ok [], w);
}

-- It takes one file alone, and the connection is lost after three bytes of any body.
abbrev lossy : Storage
lossy = record {
  World = Unit {0};
  Client = Unit {0};
  Body = Unit {0};
  Object = String;
  create_client = λ config w. (ok tt, w);
  create_bucket = λ c bucket w. (none, w);
  put_object = λ c bucket key file w.
      if file == "pixels" then (none, w) else (some (new "access denied"), w);
  get_object = λ c bucket key w. (ok tt, w);
  read_all = λ b w. (("pix", some (new "unexpected EOF")), w);
  list_objects = λ c bucket w. (ok [], w);
}

abbrev sdks : Backend → Storage
sdks tigris = drawer
sdks s3 = lossy

abbrev ada_url : String
ada_url = "https://photos.s3.eu.amazonaws.com/ada.png"

-- The broken body is returned without an error.
broken-ada : s3_download_object lossy tt "photos" "ada.png" tt ≡ (ok "pix", tt)
unfolding s3_download_object
broken-ada = refl

whole-ada : tigris_download_object drawer "c" "photos" "ada.png" "pixels" ≡ (ok "pixels", "pixels")
unfolding tigris_download_object
whole-ada = refl
