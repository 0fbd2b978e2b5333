-- ===== src/Sfuse/Stack.antt =====
-- alignfuse over sfuse with the codecs of det_symmetric.c and rand_symmetric.c, as the configurations
-- of conf/aligned_det.ini and conf/aligned_aes.ini stack them.
