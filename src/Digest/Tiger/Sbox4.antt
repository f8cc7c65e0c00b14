-- ===== src/Digest/Tiger/Sbox4.antt =====
-- src/crypto/digest/tiger.cpp: entries 768 to 1023 of `sboxes`, which the macro SBOX4 points at.
use samurai.Prelude.{ℕ, List, [], ◌∷◌}

abbrev pub sbox4_table : List ℕ
sbox4_table =
    0x5B0E608526323C55 ∷ 0x1A46C1A9FA1B59F5 ∷ 0xA9E245A17C4C8FFA ∷ 0x65CA5159DB2955D7
    ∷ 0x05DB0A76CE35AFC2 ∷ 0x81EAC77EA9113D45 ∷ 0x528EF88AB6AC0A0D ∷ 0xA09EA253597BE3FF
    ∷ 0x430DDFB3AC48CD56 ∷ 0xC4B3A67AF45CE46F ∷ 0x4ECECFD8FBE2D05E ∷ 0x3EF56F10B39935F0
    ∷ 0x0B22D6829CD619C6 ∷ 0x17FD460A74DF2069 ∷ 0x6CF8CC8E8510ED40 ∷ 0xD6C824BF3A6ECAA7
    ∷ 0x61243D581A817049 ∷ 0x048BACB6BBC163A2 ∷ 0xD9A38AC27D44CC32 ∷ 0x7FDDFF5BAAF410AB
    ∷ 0xAD6D495AA804824B ∷ 0xE1A6A74F2D8C9F94 ∷ 0xD4F7851235DEE8E3 ∷ 0xFD4B7F886540D893
    ∷ 0x247C20042AA4BFDA ∷ 0x096EA1C517D1327C ∷ 0xD56966B4361A6685 ∷ 0x277DA5C31221057D
    ∷ 0x94D59893A43ACFF7 ∷ 0x64F0C51CCDC02281 ∷ 0x3D33BCC4FF6189DB ∷ 0xE005CB184CE66AF1
    ∷ 0xFF5CCD1D1DB99BEA ∷ 0xB0B854A7FE42980F ∷ 0x7BD46A6A718D4B9F ∷ 0xD10FA8CC22A5FD8C
    ∷ 0xD31484952BE4BD31 ∷ 0xC7FA975FCB243847 ∷ 0x4886ED1E5846C407 ∷ 0x28CDDB791EB70B04
    ∷ 0xC2B00BE2F573417F ∷ 0x5C9590452180F877 ∷ 0x7A6BDDFFF370EB00 ∷ 0xCE509E38D6D9D6A4
    ∷ 0xEBEB0F00647FA702 ∷ 0x1DCC06CF76606F06 ∷ 0xE4D9F28BA286FF0A ∷ 0xD85A305DC918C262
    ∷ 0x475B1D8732225F54 ∷ 0x2D4FB51668CCB5FE ∷ 0xA679B9D9D72BBA20 ∷ 0x53841C0D912D43A5
    ∷ 0x3B7EAA48BF12A4E8 ∷ 0x781E0E47F22F1DDF ∷ 0xEFF20CE60AB50973 ∷ 0x20D261D19DFFB742
    ∷ 0x16A12B03062A2E39 ∷ 0x1960EB2239650495 ∷ 0x251C16FED50EB8B8 ∷ 0x9AC0C330F826016E
    ∷ 0xED152665953E7671 ∷ 0x02D63194A6369570 ∷ 0x5074F08394B1C987 ∷ 0x70BA598C90B25CE1
    ∷ 0x794A15810B9742F6 ∷ 0x0D5925E9FCAF8C6C ∷ 0x3067716CD868744E ∷ 0x910AB077E8D7731B
    ∷ 0x6A61BBDB5AC42F61 ∷ 0x93513EFBF0851567 ∷ 0xF494724B9E83E9D5 ∷ 0xE887E1985C09648D
    ∷ 0x34B1D3C675370CFD ∷ 0xDC35E433BC0D255D ∷ 0xD0AAB84234131BE0 ∷ 0x08042A50B48B7EAF
    ∷ 0x9997C4EE44A3AB35 ∷ 0x829A7B49201799D0 ∷ 0x263B8307B7C54441 ∷ 0x752F95F4FD6A6CA6
    ∷ 0x927217402C08C6E5 ∷ 0x2A8AB754A795D9EE ∷ 0xA442F7552F72943D ∷ 0x2C31334E19781208
    ∷ 0x4FA98D7CEAEE6291 ∷ 0x55C3862F665DB309 ∷ 0xBD0610175D53B1F3 ∷ 0x46FE6CB840413F27
    ∷ 0x3FE03792DF0CFA59 ∷ 0xCFE700372EB85E8F ∷ 0xA7BE29E7ADBCE118 ∷ 0xE544EE5CDE8431DD
    ∷ 0x8A781B1B41F1873E ∷ 0xA5C94C78A0D2F0E7 ∷ 0x39412E2877B60728 ∷ 0xA1265EF3AFC9A62C
    ∷ 0xBCC2770C6A2506C5 ∷ 0x3AB66DD5DCE1CE12 ∷ 0xE65499D04A675B37 ∷ 0x7D8F523481BFD216
    ∷ 0x0F6F64FCEC15F389 ∷ 0x74EFBE618B5B13C8 ∷ 0xACDC82B714273E1D ∷ 0xDD40BFE003199D17
    ∷ 0x37E99257E7E061F8 ∷ 0xFA52626904775AAA ∷ 0x8BBBF63A463D56F9 ∷ 0xF0013F1543A26E64
    ∷ 0xA8307E9F879EC898 ∷ 0xCC4C27A4150177CC ∷ 0x1B432F2CCA1D3348 ∷ 0xDE1D1F8F9F6FA013
    ∷ 0x606602A047A7DDD6 ∷ 0xD237AB64CC1CB2C7 ∷ 0x9B938E7225FCD1D3 ∷ 0xEC4E03708E0FF476
    ∷ 0xFEB2FBDA3D03C12D ∷ 0xAE0BCED2EE43889A ∷ 0x22CB8923EBFB4F43 ∷ 0x69360D013CF7396D
    ∷ 0x855E3602D2D4E022 ∷ 0x073805BAD01F784C ∷ 0x33E17A133852F546 ∷ 0xDF4874058AC7B638
    ∷ 0xBA92B29C678AA14A ∷ 0x0CE89FC76CFAADCD ∷ 0x5F9D4E0908339E34 ∷ 0xF1AFE9291F5923B9
    ∷ 0x6E3480F60F4A265F ∷ 0xEEBF3A2AB29B841C ∷ 0xE21938A88F91B4AD ∷ 0x57DFEFF845C6D3C3
    ∷ 0x2F006B0BF62CAAF2 ∷ 0x62F479EF6F75EE78 ∷ 0x11A55AD41C8916A9 ∷ 0xF229D29084FED453
    ∷ 0x42F1C27B16B000E6 ∷ 0x2B1F76749823C074 ∷ 0x4B76ECA3C2745360 ∷ 0x8C98F463B91691BD
    ∷ 0x14BCC93CF1ADE66A ∷ 0x8885213E6D458397 ∷ 0x8E177DF0274D4711 ∷ 0xB49B73B5503F2951
    ∷ 0x10168168C3F96B6B ∷ 0x0E3D963B63CAB0AE ∷ 0x8DFC4B5655A1DB14 ∷ 0xF789F1356E14DE5C
    ∷ 0x683E68AF4E51DAC1 ∷ 0xC9A84F9D8D4B0FD9 ∷ 0x3691E03F52A0F9D1 ∷ 0x5ED86E46E1878E80
    ∷ 0x3C711A0E99D07150 ∷ 0x5A0865B20C4E9310 ∷ 0x56FBFC1FE4F0682E ∷ 0xEA8D5DE3105EDF9B
    ∷ 0x71ABFDB12379187A ∷ 0x2EB99DE1BEE77B9C ∷ 0x21ECC0EA33CF4523 ∷ 0x59A4D7521805C7A1
    ∷ 0x3896F5EB56AE7C72 ∷ 0xAA638F3DB18F75DC ∷ 0x9F39358DABE9808E ∷ 0xB7DEFA91C00B72AC
    ∷ 0x6B5541FD62492D92 ∷ 0x6DC6DEE8F92E4D5B ∷ 0x353F57ABC4BEEA7E ∷ 0x735769D6DA5690CE
    ∷ 0x0A234AA642391484 ∷ 0xF6F9508028F80D9D ∷ 0xB8E319A27AB3F215 ∷ 0x31AD9C1151341A4D
    ∷ 0x773C22A57BEF5805 ∷ 0x45C7561A07968633 ∷ 0xF913DA9E249DBE36 ∷ 0xDA652D9B78A64C68
    ∷ 0x4C27A97F3BC334EF ∷ 0x76621220E66B17F4 ∷ 0x967743899ACD7D0B ∷ 0xF3EE5BCAE0ED6782
    ∷ 0x409F753600C879FC ∷ 0x06D09A39B5926DB6 ∷ 0x6F83AEB0317AC588 ∷ 0x01E6CA4A86381F21
    ∷ 0x66FF3462D19F3025 ∷ 0x72207C24DDFD3BFB ∷ 0x4AF6B6D3E2ECE2EB ∷ 0x9C994DBEC7EA08DE
    ∷ 0x49ACE597B09A8BC4 ∷ 0xB38C4766CF0797BA ∷ 0x131B9373C57C2A75 ∷ 0xB1822CCE61931E58
    ∷ 0x9D7555B909BA1C0C ∷ 0x127FAFDD937D11D2 ∷ 0x29DA3BADC66D92E4 ∷ 0xA2C1D57154C2ECBC
    ∷ 0x58C5134D82F6FE24 ∷ 0x1C3AE3515B62274F ∷ 0xE907C82E01CB8126 ∷ 0xF8ED091913E37FCB
    ∷ 0x3249D8F9C80046C9 ∷ 0x80CF9BEDE388FB63 ∷ 0x1881539A116CF19E ∷ 0x5103F3F76BD52457
    ∷ 0x15B7E6F5AE47F7A8 ∷ 0xDBD7C6DED47E9CCF ∷ 0x44E55C410228BB1A ∷ 0xB647D4255EDB4E99
    ∷ 0x5D11882BB8AAFC30 ∷ 0xF5098BBB29D3212A ∷ 0x8FB5EA14E90296B3 ∷ 0x677B942157DD025A
    ∷ 0xFB58E7C0A390ACB5 ∷ 0x89D3674C83BD4A01 ∷ 0x9E2DA4DF4BF3B93B ∷ 0xFCC41E328CAB4829
    ∷ 0x03F38C96BA582C52 ∷ 0xCAD1BDBD7FD85DB2 ∷ 0xBBB442C16082AE83 ∷ 0xB95FE86BA5DA9AB0
    ∷ 0xB22E04673771A93F ∷ 0x845358C9493152D8 ∷ 0xBE2A488697B4541E ∷ 0x95A2DC2DD38E6966
    ∷ 0xC02C11AC923C852B ∷ 0x2388B1990DF2A87B ∷ 0x7C8008FA1B4F37BE ∷ 0x1F70D0C84D54E503
    ∷ 0x5490ADEC7ECE57D4 ∷ 0x002B3C27D9063A3A ∷ 0x7EAEA3848030A2BF ∷ 0xC602326DED2003C0
    ∷ 0x83A7287D69A94086 ∷ 0xC57A5FCB30F57A8A ∷ 0xB56844E479EBE779 ∷ 0xA373B40F05DCBCE9
    ∷ 0xD71A786E88570EE2 ∷ 0x879CBACDBDE8F6A0 ∷ 0x976AD1BCC164A32F ∷ 0xAB21E25E9666D78B
    ∷ 0x901063AAE5E5C33C ∷ 0x9818B34448698D90 ∷ 0xE36487AE3E1E8ABB ∷ 0xAFBDF931893BDCB4
    ∷ 0x6345A0DC5FBBD519 ∷ 0x8628FE269B9465CA ∷ 0x1E5D01603F9C51EC ∷ 0x4DE44006A15049B7
    ∷ 0xBF6C70E5F776CBB1 ∷ 0x411218F2EF552BED ∷ 0xCB0C0708705A36A3 ∷ 0xE74D14754F986044
    ∷ 0xCD56D9430EA8280E ∷ 0xC12591D7535F5065 ∷ 0xC83223F1720AEF96 ∷ 0xC3A0396F7363A51F ∷ []
